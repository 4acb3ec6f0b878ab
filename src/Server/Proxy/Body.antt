-- ===== src/Server/Proxy/Body.antt =====
-- expose-server/src/proxy/body.rs: `BodyCollector`. A body is its size hint and the frames that it
-- yields: data, trailers or a failed read.
use expose.Prelude.{
  ℕ, ◌+◌, ◌≤◌, ◌≡◌, ◌↔◌, ◌++◌, Bool, true, false, List, [], ◌∷◌, Option, none, some, ok, err, arith,
  if◌then◌else◌, ltb, length, length-append, append_assoc, append-nil,
}
use expose.Prelude.Text.{Text, Bytes}
use expose.Common.Error.{ExposeError, Fallible}

pub data Frame : Type 0 where
  chunk : Bytes → Frame
  trailers : Frame
  failed : Text → Frame

pub record Body : Type 0 where
  pub upper : Option ℕ
  pub frames : List Frame

-- The `while` loop of `collect`.
unfoldable pub collect_frames : ℕ → Bytes → List Frame → Fallible Bytes
collect_frames limit collected [] = ok collected
collect_frames limit collected (chunk bytes ∷ frames) =
    let rest = collect_frames limit (collected ++ bytes) frames in
    if ltb limit (length collected + length bytes)
    then err (ExposeError.payload_too_large (length collected + length bytes) limit)
    else rest
collect_frames limit collected (trailers ∷ frames) = collect_frames limit collected frames
collect_frames limit collected (failed e ∷ frames) = err (ExposeError.internal e)

-- The size hint that `collect` refuses, if it does.
abbrev pub hinted : ℕ → Option ℕ → Option ℕ
hinted limit none = none
hinted limit (some upper) = if ltb limit upper then some upper else none

unfoldable pub collect : ℕ → Body → Fallible Bytes
unfolding collect_frames
collect limit body = elim (hinted limit body.upper) [
  | some upper ↦ err (ExposeError.payload_too_large upper limit)
  | none ↦ collect_frames limit [] body.frames
]

-- The specification: what the frames carry, and whether every read worked.
abbrev pub payload : List Frame → Bytes
payload [] = []
payload (chunk bytes ∷ frames) = bytes ++ payload frames
payload (trailers ∷ frames) = payload frames
payload (failed e ∷ frames) = payload frames

abbrev pub is_clean : List Frame → Bool
is_clean [] = true
is_clean (failed e ∷ frames) = false
is_clean (chunk bytes ∷ frames) = is_clean frames
is_clean (trailers ∷ frames) = is_clean frames

collect_frames_sound :
    (limit : ℕ) (collected : Bytes) (frames : List Frame) (b : Bytes)
    → length collected ≤ limit
    → collect_frames limit collected frames ≡ ok b
    → (collected ++ payload frames ≡ b) × (is_clean frames ≡ true) × (length b ≤ limit)
unfolding collect_frames
collect_frames_sound limit collected [] b h e = ground (arith, append-nil collected)
collect_frames_sound limit collected (chunk bytes ∷ frames) b h e = ground (
  arith,
  collect_frames_sound limit (collected ++ bytes) frames b,
  length-append collected bytes,
  append_assoc collected bytes (payload frames),
)
collect_frames_sound limit collected (trailers ∷ frames) b h e =
    collect_frames_sound limit collected frames b h e
collect_frames_sound limit collected (failed x ∷ frames) b h e = cc

collect_frames_complete :
    (limit : ℕ) (collected : Bytes) (frames : List Frame)
    → is_clean frames ≡ true
    → length (collected ++ payload frames) ≤ limit
    → collect_frames limit collected frames ≡ ok (collected ++ payload frames)
unfolding collect_frames
collect_frames_complete limit collected [] c h = ground (arith, append-nil collected)
collect_frames_complete limit collected (chunk bytes ∷ frames) c h = ground (
  arith,
  collect_frames_complete limit (collected ++ bytes) frames,
  length-append collected bytes,
  length-append (collected ++ bytes) (payload frames),
  append_assoc collected bytes (payload frames),
)
collect_frames_complete limit collected (trailers ∷ frames) c h =
    collect_frames_complete limit collected frames c h
collect_frames_complete limit collected (failed x ∷ frames) c h = cc

-- A body is collected exactly when no size hint exceeds the limit, every read works and what the
-- frames carry fits; the result is then what they carry, in order and whole.
pub collect_iff :
    (limit : ℕ) (body : Body) (b : Bytes)
    → (collect limit body ≡ ok b) ↔ (
        (hinted limit body.upper ≡ none)
        × (is_clean body.frames ≡ true)
        × (payload body.frames ≡ b)
        × (length b ≤ limit))
unfolding collect
collect_iff limit body b = (
  λ h. ground (arith, collect_frames_sound limit [] body.frames b),
  λ (n, c, p, l). ground (arith, collect_frames_complete limit [] body.frames),
)
