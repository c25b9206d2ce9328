-- ===== src/Server/Device.antt =====
-- src/libevent_server.c: load_device_ip_port_cb; src/dev_opt.c: the address that a camera's stream is
-- opened by, and the request for its description.
use box_rtsp.Prelude.{
  ℕ, zero, suc, ◌+◌, ◌-◌, ◌/◌, ◌%◌, List, [], ◌∷◌, ◌++◌, Option, none, some, ltb, leb, ◌==◌,
  if◌then◌else◌, length, take, drop, ℤ, pos, negsuc,
}
use box_rtsp.Prelude.Int.{eq_int}
use box_rtsp.Rtsp.Exec.{Halt, Exec, ok, halt, ◌>>=◌}
use box_rtsp.Rtsp.Headers.{codes}
use box_rtsp.Rtsp.Text.{atoi}

-- The part of `DEV_LIST_OBJ` that says where a camera is; a text stands for the array that holds it,
-- up to its NUL.
pub record Device : Type 0 where
  pub stream_type : ℤ
  pub dev_ip : List ℕ
  pub rtsp_port : ℤ
  pub main_url : List ℕ
  pub sub_url : List ℕ
  pub user_name : List ℕ
  pub user_passwd : List ℕ
  pub basic_authenticate : List ℕ

-- `strncpy(array, column, strlen(column))`, which writes no NUL: what was longer before stays. A NULL
-- column is read through, and a text that does not fit, with a NUL, is written or read behind the
-- array.
unfoldable pub copy_column : ℕ → List ℕ → Option (List ℕ) → Exec (List ℕ)
copy_column size old none = halt Halt.faults
copy_column size old (some s) =
    if leb size (length s) then halt Halt.faults else ok (s ++ drop (length s) old)

-- The digits of a number, the last `fuel` of them.
abbrev pub digits : ℕ → ℕ → List ℕ → List ℕ
digits zero n ds = ds
digits (suc fuel) n ds =
    let rest = digits fuel (n / 10) ((48 + n % 10) ∷ ds) in if ltb n 10 then (48 + n) ∷ ds else rest

-- `%d`
unfoldable pub decimal : ℤ → List ℕ
decimal (pos n) = digits 10 n []
decimal (negsuc n) = 45 ∷ digits 10 (suc n) []

-- `snprintf(array, size, …)` of a text that is complete.
abbrev pub snprintf : ℕ → List ℕ → List ℕ
snprintf size s = take (size - 1) s

-- `"rtsp://%s:%d%s"`
unfoldable pub stream_url : List ℕ → ℤ → List ℕ → List ℕ
stream_url ip port path = snprintf 512 (codes "rtsp://" ++ (ip ++ (58 ∷ (decimal port ++ path))))

-- The seven columns of a row; `atoi` of a NULL reads through it.
pub record Row : Type 0 where
  pub ip : Option (List ℕ)
  pub port : Option (List ℕ)
  pub user : Option (List ℕ)
  pub passwd : Option (List ℕ)
  pub authenticate : Option (List ℕ)
  pub main : Option (List ℕ)
  pub sub : Option (List ℕ)

unfoldable pub column_int : Option (List ℕ) → Exec ℤ
column_int none = halt Halt.faults
column_int (some s) = ok (atoi s)

unfoldable pub load_device_ip_port_cb : Device → Row → Exec Device
load_device_ip_port_cb d row = do
  ip ← copy_column 16 d.dev_ip row.ip
  port ← column_int row.port
  user ← copy_column 64 d.user_name row.user
  passwd ← copy_column 64 d.user_passwd row.passwd
  authenticate ← copy_column 128 d.basic_authenticate row.authenticate
  main ← copy_column 512 [] row.main
  sub ← copy_column 512 [] row.sub
  ok record d {
    dev_ip = ip;
    rtsp_port = port;
    user_name = user;
    user_passwd = passwd;
    basic_authenticate = authenticate;
    main_url = stream_url ip port main;
    sub_url = stream_url ip port sub;
  }

-- The stream's URL: the main one, or the other where there is one.
unfoldable pub chosen_url : Device → List ℕ
chosen_url d =
    if eq_int d.stream_type (pos 0)
    then d.main_url
    else if length d.sub_url == 0
    then d.main_url
    else d.sub_url

-- `arrOpenRtspUrl`; the URL is used without its first seven bytes.
unfoldable pub open_rtsp_url : Device → List ℕ
unfolding chosen_url
open_rtsp_url d =
    if length d.user_name == 0
    then snprintf 1024 (codes "rtsp://" ++ drop 7 (chosen_url d))
    else snprintf 1024
        (codes "rtsp://" ++ (d.user_name ++ (58 ∷ (d.user_passwd ++ (64 ∷ drop 7 (chosen_url d))))))

-- SEND_DESCRIBE_BASIC_MSG, which active_connect_eventcb writes once it is connected.
unfoldable pub describe_request : Device → List ℕ
unfolding chosen_url
describe_request d = snprintf 1024 (
    codes "DESCRIBE "
    ++ (chosen_url d
        ++ (codes " RTSP/1.0\r\nCSeq: 3\r\nAccept: application/sdp\r\nAuthorization: Basic "
            ++ (d.basic_authenticate ++ codes "\r\n\r\n"))))
