-- ===== src/Tests/Answers.antt =====
-- Descriptions and challenges of cameras, with a hash of sixteen bytes.
use box_rtsp.Prelude.{
  Bool, false, inl, inr, Bool-cases, ◌==◌, if◌then◌else◌, ℕ, ◌≡◌, refl, List, [], ◌∷◌, ◌++◌, ◌<◌,
  ◌%◌, length, ltb, true, arith, pos,
}
use box_rtsp.Rtsp.Exec.{Halt, ok, halt}
use box_rtsp.Rtsp.Headers.{codes, header_calls}
use box_rtsp.Rtsp.Text.{atoi}
use box_rtsp.Server.Device.{Device, copy_column}
use box_rtsp.Server.Sdp.{
  Sdp, strstr, before, copy_line, rate_of, video_format, video_map, video_part, audio_part,
  analysis_sdp_info,
}
use box_rtsp.Server.Digest.{
  Challenge, quoted, copy_quoted, get_nonce, get_realm_and_nonce, get_response,
}
use box_rtsp.Server.Descriptions.{
  HasNo, crlf, analysis_sdp_info-video_lines, analysis_sdp_info_overrun, analysis_sdp_info_fault,
}
use box_rtsp.Server.Responses.{IsDigest, main_stream, get_response_lem}
use box_rtsp.Start.Digits.{AreBytes}

abbrev none_yet : Sdp
none_yet = record {
  frame_rate = pos 0;
  m_video = [];
  rtpmap_video = [];
  fmtp_video = [];
  m_audio = [];
  rtpmap_audio = [];
}

abbrev description : List ℕ
description = codes "v=0\r\nm=video 0 RTP/AVP 96\r\na=rtpmap:96 H264/90000\r\na=fmtp:96 x\r\n"

description_read :
    analysis_sdp_info description none_yet
    ≡ ok (record {
      frame_rate = pos 90000;
      m_video = codes "m=video 0 RTP/AVP 96";
      rtpmap_video = codes "a=rtpmap:96 H264/90000";
      fmtp_video = codes "a=fmtp:96 x";
      m_audio = codes "NULL";
      rtpmap_audio = codes "NULL";
    })
unfolding analysis_sdp_info video_part video_map video_format audio_part copy_line before
    copy_column strstr rate_of header_calls
description_read = refl

others : ℕ → List ℕ → Bool
others c [] = true
others c (x ∷ xs) = if x == c then false else others c xs

others-HasNo : (c : ℕ) (xs : List ℕ) → others c xs ≡ true → HasNo c xs
unfolding others
others-HasNo c [] h = tt
others-HasNo c (x ∷ xs) h = elim (Bool-cases (x == c)) [
  | inl q ↦ let f : false ≡ true = rw (others, q) at h in cc
  | inr q ↦ let k : others c xs ≡ true = rw (others, q) at h in (q, others-HasNo c xs k)
]

analysis_sdp_info-video_lines_example :
    analysis_sdp_info description none_yet
    ≡ ok (record {
      frame_rate = atoi (codes "90000\r\na=fmtp:96 x\r\n");
      m_video = codes "m=video 0 RTP/AVP 96";
      rtpmap_video = codes "a=rtpmap:96 H264/90000";
      fmtp_video = codes "a=fmtp:96 x";
      m_audio = codes "NULL";
      rtpmap_audio = codes "NULL";
    })
unfolding strstr others
analysis_sdp_info-video_lines_example =
    let v = codes " 0 RTP/AVP 96" in
    let kind = codes ":96 H264" in
    let map = codes ":96 H264/90000" in
    analysis_sdp_info-video_lines description v kind (codes "90000") (codes ":96 x") [] none_yet
      refl refl (others-HasNo 13 v refl, others-HasNo 61 v refl)
      (others-HasNo 13 map refl, others-HasNo 61 map refl, others-HasNo 47 kind refl)
      (others-HasNo 13 (codes ":96 x") refl) (omega arith) (omega arith) (omega arith)
      (refl, refl, refl)

-- A line of 67 bytes.
abbrev long_line : List ℕ
long_line = codes "m=video 49170 RTP/AVP 96 97 98 99 100 101 102 103 104 105 106 107 108"

analysis_sdp_info_overrun_example :
    analysis_sdp_info (codes "v=0\r\n" ++ (long_line ++ crlf [])) none_yet ≡ halt Halt.faults
unfolding strstr others
analysis_sdp_info_overrun_example =
    analysis_sdp_info_overrun (codes "v=0\r\n" ++ (long_line ++ crlf [])) long_line [] none_yet refl
      (others-HasNo 13 long_line refl) (omega arith)

analysis_sdp_info_fault_example :
    analysis_sdp_info (codes "m=video 0\r\n") none_yet ≡ halt Halt.faults
unfolding strstr
analysis_sdp_info_fault_example =
    analysis_sdp_info_fault (codes "m=video 0\r\n") (codes "m=video 0\r\n") none_yet refl refl

abbrev challenge : Challenge
challenge = record { realm = codes "cam"; nonce = codes "0a1b" }

challenge_read :
    get_realm_and_nonce
      (codes "Digest realm=\"cam\", nonce=\"0a1b\"")
      (record { realm = []; nonce = [] })
    ≡ ok (pos 0, challenge)
unfolding get_realm_and_nonce get_nonce copy_quoted quoted strstr before copy_column
challenge_read = refl

abbrev camera : Device
camera = record {
  stream_type = pos 0;
  dev_ip = codes "10.0.0.9";
  rtsp_port = pos 554;
  main_url = codes "rtsp://10.0.0.9:554/main";
  sub_url = [];
  user_name = codes "u";
  user_passwd = codes "p";
  basic_authenticate = [];
}

-- Sixteen bytes, of which the first depends on the text.
abbrev short_hash : List ℕ → List ℕ
short_hash s = length s % 256 ∷ codes "123456789abcdef"

byte_lem : (c : ℕ) → ltb c 256 ≡ true → c < 256
byte_lem c h = ground arith

sixteen : (s : List ℕ) → (length (short_hash s) ≡ 16) × AreBytes (short_hash s)
sixteen s = (
  refl,
  (
    omega arith,
    (
      byte_lem 49 refl,
      (
        byte_lem 50 refl,
        (
          byte_lem 51 refl,
          (
            byte_lem 52 refl,
            (
              byte_lem 53 refl,
              (
                byte_lem 54 refl,
                (
                  byte_lem 55 refl,
                  (
                    byte_lem 56 refl,
                    (
                      byte_lem 57 refl,
                      (
                        byte_lem 97 refl,
                        (
                          byte_lem 98 refl,
                          (
                            byte_lem 99 refl,
                            (byte_lem 100 refl, (byte_lem 101 refl, (byte_lem 102 refl, tt))),
                          ),
                        ),
                      ),
                    ),
                  ),
                ),
              ),
            ),
          ),
        ),
      ),
    ),
  ),
)

get_response_lem_example :
    (h₁ : List ℕ) × (h₂ : List ℕ) × IsDigest short_hash (codes "u:cam:p") h₁
    × IsDigest short_hash (codes "DESCRIBE:rtsp://10.0.0.9:554/main") h₂
    × IsDigest short_hash
        (h₁ ++ (58 ∷ (codes "0a1b" ++ (58 ∷ h₂))))
        (get_response short_hash (codes "DESCRIBE") camera challenge)
get_response_lem_example =
    get_response_lem short_hash (codes "DESCRIBE") (codes "rtsp://10.0.0.9:554/main") camera
      challenge sixteen (main_stream refl) (omega arith) (omega arith) (omega arith)
