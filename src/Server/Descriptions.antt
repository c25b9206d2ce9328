-- ===== src/Server/Descriptions.antt =====
-- src/dev_opt.c, analysis_sdp_info: descriptions.
use box_rtsp.Prelude.{
  ◌<◌, ◌≤◌, ◌∷◌, [], ◌==◌, ◌&&◌, Bool, true, false, zero, suc, ◌+◌, arith, ℕ, ◌≡◌, refl, ap, inl,
  inr, List, ◌++◌, Option, none, some, leb, length, drop, Bool-cases,
}
use box_rtsp.Rtsp.Exec.{Halt, Exec, ok, halt, ◌>>=◌}
use box_rtsp.Rtsp.Headers.{codes}
use box_rtsp.Rtsp.Text.{atoi}
use box_rtsp.Server.Device.{copy_column}
use box_rtsp.Server.Sdp.{
  Sdp, strstr, before, copy_line, rate_of, video_format, video_map, video_part, audio_part,
  analysis_sdp_info,
}

copy_column_fault :
    {B : Type 0} (size : ℕ) (old : List ℕ) (s : Option (List ℕ)) (f : List ℕ → Exec B)
    → ((t : List ℕ) → f t ≡ halt Halt.faults)
    → (copy_column size old s >>= f) ≡ halt Halt.faults
unfolding copy_column
copy_column_fault size old none f h = refl
copy_column_fault size old (some s) f h = elim (Bool-cases (leb size (length s))) [
  | inl l ↦ rw l refl
  | inr l ↦ rw l (h (s ++ drop (length s) old))
]

-- A description with a video but no `a=rtpmap` behind it makes the function search from NULL.
pub analysis_sdp_info_fault :
    (text video : List ℕ) (d : Sdp)
    → strstr text (codes "m=video") ≡ some video
    → strstr video (codes "a=rtpmap") ≡ none
    → analysis_sdp_info text d ≡ halt Halt.faults
unfolding analysis_sdp_info copy_line video_map video_format video_part
analysis_sdp_info_fault text video d v n =
    rw (v, n)
      (ap (λ m. m >>= λ d₁. audio_part d₁ (strstr text (codes "m=audio")))
        (copy_column_fault 64 d.m_video (before video (codes "\r\n")) _ (λ t. refl)))

-- The line break, and what follows it.
abbrev pub crlf : List ℕ → List ℕ
crlf s = 13 ∷ (10 ∷ s)

-- No byte of the text is the given one.
abbrev pub HasNo : ℕ → List ℕ → Type 0
HasNo c [] = Unit {0}
HasNo c (x ∷ xs) = ((x == c) ≡ false) × HasNo c xs

before-crlf : (xs ys : List ℕ) → HasNo 13 xs → before (xs ++ crlf ys) (codes "\r\n") ≡ some xs
unfolding before
before-crlf [] ys h = refl
before-crlf (x ∷ xs) ys h = rw (h.0, before-crlf xs ys h.1) refl

strstr-slash :
    (xs ys zs : List ℕ)
    → HasNo 47 xs
    → strstr ((xs ++ (47 ∷ ys)) ++ zs) (codes "/") ≡ some (47 ∷ (ys ++ zs))
unfolding strstr
strstr-slash [] ys zs h = refl
strstr-slash (x ∷ xs) ys zs h = rw h.0 (strstr-slash xs ys zs h.1)

and_false : (a : Bool) → (a && false) ≡ false
and_false true = refl
and_false false = refl

-- A line without `=` has no attribute.
strstr-crlf :
    (xs ys pattern : List ℕ)
    → HasNo 61 xs
    → strstr (xs ++ crlf ys) (97 ∷ (61 ∷ pattern)) ≡ strstr ys (97 ∷ (61 ∷ pattern))
unfolding strstr
strstr-crlf [] ys pattern h = refl
strstr-crlf (x ∷ []) ys pattern h = rw (and_false (x == 97)) refl
strstr-crlf (x ∷ (y ∷ xs)) ys pattern h =
    rw (h.1.0, and_false (x == 97)) (strstr-crlf (y ∷ xs) ys pattern h.1)

append-nil : (xs : List ℕ) (n : ℕ) → xs ++ drop n [] ≡ xs
append-nil [] zero = refl
append-nil [] (suc n) = refl
append-nil (x ∷ xs) n = ap (◌∷◌ x) (append-nil xs n)

copy_line-crlf :
    (size : ℕ) (xs ys : List ℕ)
    → HasNo 13 xs
    → length xs < size
    → copy_line size [] (xs ++ crlf ys) ≡ ok xs
unfolding copy_line copy_column
copy_line-crlf size xs ys h l =
    let f : leb size (length xs) ≡ false = ground arith in
    rw (before-crlf xs ys h, f, append-nil xs (length xs)) refl

copy_line_overrun :
    (size : ℕ) (old xs ys : List ℕ)
    → HasNo 13 xs
    → size ≤ length xs
    → copy_line size old (xs ++ crlf ys) ≡ halt Halt.faults
unfolding copy_line copy_column
copy_line_overrun size old xs ys h l =
    let f : leb size (length xs) ≡ true = ground arith in rw (before-crlf xs ys h, f) refl

-- Where the line of the video has 64 bytes or more, none of them a carriage return, and a line break
-- behind it, the evaluation halts at the copy, which reaches the end of its array.
pub analysis_sdp_info_overrun :
    (text line behind : List ℕ) (d : Sdp)
    → strstr text (codes "m=video") ≡ some (line ++ crlf behind)
    → HasNo 13 line
    → 64 ≤ length line
    → analysis_sdp_info text d ≡ halt Halt.faults
unfolding analysis_sdp_info video_part
analysis_sdp_info_overrun text line behind d e h l =
    rw (e, copy_line_overrun 64 d.m_video line behind h l) refl

-- The lines of a video: its own one, its map with the rate behind a slash, and its format.
abbrev pub video_lines : List ℕ → List ℕ → List ℕ → List ℕ → List ℕ
video_lines v m f behind =
    codes "m=video"
    ++ (v ++ crlf (codes "a=rtpmap" ++ (m ++ crlf (codes "a=fmtp" ++ (f ++ crlf behind)))))

-- From its map on, and from its format on.
abbrev map_lines : List ℕ → List ℕ → List ℕ → List ℕ
map_lines m f behind = codes "a=rtpmap" ++ (m ++ crlf (codes "a=fmtp" ++ (f ++ crlf behind)))

strstr-rtpmap :
    (v m f behind : List ℕ)
    → HasNo 61 v
    → strstr (video_lines v m f behind) (codes "a=rtpmap") ≡ some (map_lines m f behind)
unfolding strstr
strstr-rtpmap v m f behind h = strstr-crlf v (map_lines m f behind) (codes "rtpmap") h

strstr-fmtp :
    (m f behind : List ℕ)
    → HasNo 61 m
    → strstr (map_lines m f behind) (codes "a=fmtp") ≡ some (codes "a=fmtp" ++ (f ++ crlf behind))
unfolding strstr
strstr-fmtp m f behind h = strstr-crlf m (codes "a=fmtp" ++ (f ++ crlf behind)) (codes "fmtp") h

strstr-map_lines :
    (kind rate f behind : List ℕ)
    → HasNo 47 kind
    → strstr (map_lines (kind ++ (47 ∷ rate)) f behind) (codes "/")
      ≡ some (47 ∷ (rate ++ crlf (codes "a=fmtp" ++ (f ++ crlf behind))))
unfolding strstr
strstr-map_lines kind rate f behind h =
    strstr-slash kind rate (crlf (codes "a=fmtp" ++ (f ++ crlf behind))) h

rate_of-map_lines :
    (kind rate f behind : List ℕ)
    → HasNo 47 kind
    → rate_of (map_lines (kind ++ (47 ∷ rate)) f behind)
      ≡ ok (atoi (rate ++ crlf (codes "a=fmtp" ++ (f ++ crlf behind))))
unfolding rate_of
rate_of-map_lines kind rate f behind h = rw (rate_of, strstr-map_lines kind rate f behind h) refl

-- A description with the lines `m=video`, `a=rtpmap` and `a=fmtp` in this order, one behind the other,
-- and without `m=audio` is taken apart into them, where no line has a carriage return within or
-- reaches the end of its array, the first two have no `=` behind `m=video` and
-- `a=rtpmap`, and the arrays are empty before. The rate is the number behind the first slash of the
-- map, and the texts of the audio are `NULL`.
pub analysis_sdp_info-video_lines :
    (text v kind rate f behind : List ℕ) (d : Sdp)
    → strstr text (codes "m=video") ≡ some (video_lines v (kind ++ (47 ∷ rate)) f behind)
    → strstr text (codes "m=audio") ≡ none
    → HasNo 13 v × HasNo 61 v
    → HasNo 13 (kind ++ (47 ∷ rate)) × HasNo 61 (kind ++ (47 ∷ rate)) × HasNo 47 kind
    → HasNo 13 f
    → 7 + length v < 64
    → 8 + length (kind ++ (47 ∷ rate)) < 128
    → 6 + length f < 512
    → (d.m_video ≡ []) × (d.rtpmap_video ≡ []) × (d.fmtp_video ≡ [])
    → analysis_sdp_info text d
      ≡ ok (record {
        frame_rate = atoi (rate ++ crlf (codes "a=fmtp" ++ (f ++ crlf behind)));
        m_video = codes "m=video" ++ v;
        rtpmap_video = codes "a=rtpmap" ++ (kind ++ (47 ∷ rate));
        fmtp_video = codes "a=fmtp" ++ f;
        m_audio = codes "NULL";
        rtpmap_audio = codes "NULL";
      })
unfolding analysis_sdp_info video_part video_map video_format audio_part
analysis_sdp_info-video_lines text v kind rate f behind d e n a m h lv lm lf z =
    let map = kind ++ (47 ∷ rate) in
    let format = codes "a=fmtp" ++ (f ++ crlf behind) in
    let c₁ =
      copy_line-crlf 64 (codes "m=video" ++ v) (map_lines map f behind)
        ((refl, (refl, (refl, (refl, (refl, (refl, (refl, a.0)))))))) (omega arith) in
    let c₂ =
      copy_line-crlf 128 (codes "a=rtpmap" ++ map) format
        ((refl, (refl, (refl, (refl, (refl, (refl, (refl, (refl, m.0))))))))) (omega arith) in
    let c₃ =
      copy_line-crlf 512 (codes "a=fmtp" ++ f) behind
        ((refl, (refl, (refl, (refl, (refl, (refl, h))))))) (omega arith) in
    rw
      (
        e,
        z.0,
        c₁,
        strstr-rtpmap v map f behind a.1,
        z.1,
        c₂,
        rate_of-map_lines kind rate f behind m.2,
        video_format,
        strstr-fmtp map f behind m.1,
        z.2,
        c₃,
        n,
      )
      refl
