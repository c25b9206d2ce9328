-- ===== src/Server/Sdp.antt =====
-- src/dev_opt.c: analysis_sdp_info, which takes a stream's description apart.
use box_rtsp.Prelude.{ℕ, List, [], ◌∷◌, Option, none, some, if◌then◌else◌, drop, ℤ}
use box_rtsp.Rtsp.Exec.{Halt, Exec, ok, halt, ◌>>=◌}
use box_rtsp.Rtsp.Headers.{codes}
use box_rtsp.Rtsp.Text.{atoi}
use box_rtsp.Server.Frames.{begins}
use box_rtsp.Server.Device.{copy_column}

-- The members of `DEV_LIST_OBJ` that describe the stream; a text stands for its array, up to its NUL.
pub record Sdp : Type 0 where
  pub frame_rate : ℤ
  pub m_video : List ℕ
  pub rtpmap_video : List ℕ
  pub fmtp_video : List ℕ
  pub m_audio : List ℕ
  pub rtpmap_audio : List ℕ

-- `strstr(text, pattern)`: what the text is from the pattern on.
unfoldable pub strstr : List ℕ → List ℕ → Option (List ℕ)
strstr [] pattern = if begins [] pattern then some [] else none
strstr (c ∷ cs) pattern = if begins (c ∷ cs) pattern then some (c ∷ cs) else strstr cs pattern

-- The text in front of the pattern.
unfoldable pub before : List ℕ → List ℕ → Option (List ℕ)
before [] pattern = if begins [] pattern then some [] else none
before (c ∷ cs) pattern =
    if begins (c ∷ cs) pattern
    then some []
    else elim (before cs pattern) [ none ↦ none | some s ↦ some (c ∷ s) ]

-- `p_Pos2 = strstr(p_Pos1, "\r\n"); strncpy(array, p_Pos1, p_Pos2 - p_Pos1);`, where a NULL `p_Pos2`
-- makes a length that no array has.
unfoldable pub copy_line : ℕ → List ℕ → List ℕ → Exec (List ℕ)
copy_line size old p = copy_column size old (before p (codes "\r\n"))

-- `atoi(strstr(p_Pos1, "/") + 1)`
unfoldable pub rate_of : List ℕ → Exec ℤ
rate_of p = elim (strstr p (codes "/")) [ none ↦ halt Halt.faults | some s ↦ ok (atoi (drop 1 s)) ]

-- `"a=fmtp"`, which is looked for from NULL where there is no `"a=rtpmap"`.
unfoldable pub video_format : Sdp → Option (List ℕ) → Exec Sdp
video_format d none = halt Halt.faults
video_format d (some p) = elim (strstr p (codes "a=fmtp")) [
  | none ↦ ok d
  | some f ↦ copy_line 512 d.fmtp_video f >>= λ t. ok (record d { fmtp_video = t })
]

unfoldable pub video_map : Sdp → Option (List ℕ) → Exec Sdp
video_map d none = ok d
video_map d (some p) = do
  t ← copy_line 128 d.rtpmap_video p
  rate ← rate_of p
  ok record d { rtpmap_video = t; frame_rate = rate }

-- `"m=video"`
unfoldable pub video_part : Sdp → Option (List ℕ) → Exec Sdp
video_part d none =
    ok record d { m_video = codes "NULL"; rtpmap_video = codes "NULL"; fmtp_video = codes "NULL" }
video_part d (some p) = do
  t ← copy_line 64 d.m_video p
  d₁ ← video_map (record d { m_video = t }) (strstr p (codes "a=rtpmap"))
  video_format d₁ (strstr p (codes "a=rtpmap"))

unfoldable pub audio_map : Sdp → Option (List ℕ) → Exec Sdp
audio_map d none = ok d
audio_map d (some p) = copy_line 128 d.rtpmap_audio p >>= λ t. ok (record d { rtpmap_audio = t })

-- `"m=audio"`
unfoldable pub audio_part : Sdp → Option (List ℕ) → Exec Sdp
audio_part d none = ok record d { m_audio = codes "NULL"; rtpmap_audio = codes "NULL" }
audio_part d (some p) = do
  t ← copy_line 64 d.m_audio p
  audio_map (record d { m_audio = t }) (strstr p (codes "a=rtpmap_audio"))

unfoldable pub analysis_sdp_info : List ℕ → Sdp → Exec Sdp
analysis_sdp_info text d = do
  d₁ ← video_part d (strstr text (codes "m=video"))
  audio_part d₁ (strstr text (codes "m=audio"))
