-- ===== src/Tests/Commands.antt =====
-- The commands of clients, with a reader that knows one command.
use box_rtsp.Prelude.{
  ℕ, zero, suc, ap, sym, ◌≡◌, refl, List, [], ◌∷◌, ◌++◌, some, arith, length, pos,
}
use box_rtsp.Rtsp.Exec.{Halt, ok, halt}
use box_rtsp.Rtsp.Headers.{codes}
use box_rtsp.Server.Frames.{Received, read_cmd, body_length}
use box_rtsp.Server.Framing.{read_cmd_overrun, read_cmd_arrives}
use box_rtsp.Server.Device.{
  Device, Row, load_device_ip_port_cb, chosen_url, copy_column, column_int, stream_url, decimal,
}
use box_rtsp.Rtsp.Headers.{header_calls}
use box_rtsp.Server.Addresses.{chosen_url_loaded}

-- A head that announces `a * 256 + b` bytes.
abbrev head : ℕ → ℕ → List ℕ
head a b =
    codes "hBzHbox@" ++ (0 ∷ (0 ∷ (a ∷ (b ∷ codes "\0\0\0\0\0\0\0\0\0\0\0\0\0\0\0\0\0\0\0\0"))))

read_cmd_arrives_example :
    (read_cmd (head 0 2 ++ codes "{") ≡ ok Received.waits)
    × (read_cmd (head 0 2 ++ (codes "{}" ++ codes "h"))
        ≡ ok (Received.command (head 0 2) (codes "{}") (codes "h")))
unfolding body_length
read_cmd_arrives_example =
    read_cmd_arrives (head 0 2) (codes "{}") (codes "h") 1 refl refl refl (omega arith)
      (refl, (refl, tt)) (omega arith)

abbrev repeat : ℕ → List ℕ
repeat zero = []
repeat (suc n) = 32 ∷ repeat n

length-repeat : (n : ℕ) → length (repeat n) ≡ n
length-repeat zero = refl
length-repeat (suc n) = ap suc (length-repeat n)

read_cmd_overrun_example : read_cmd (head 2 0 ++ (repeat 512 ++ [])) ≡ halt Halt.faults
unfolding body_length
read_cmd_overrun_example =
    read_cmd_overrun (head 2 0) (repeat 512) [] refl refl (sym (length-repeat 512))
      (omega (arith, length-repeat 512)) (omega (arith, length-repeat 512))

-- A camera, and a row without a path for the second stream.
abbrev blank : Device
blank = record {
  stream_type = pos 1;
  dev_ip = [];
  rtsp_port = pos 0;
  main_url = [];
  sub_url = [];
  user_name = [];
  user_passwd = [];
  basic_authenticate = [];
}

abbrev row : Row
row = record {
  ip = some (codes "10.0.0.9");
  port = some (codes "554");
  user = some [];
  passwd = some [];
  authenticate = some [];
  main = some (codes "/main");
  sub = some [];
}

abbrev loaded : Device
loaded = record blank {
  dev_ip = codes "10.0.0.9";
  rtsp_port = pos 554;
  main_url = codes "rtsp://10.0.0.9:554/main";
  sub_url = codes "rtsp://10.0.0.9:554";
}

loaded_lem : load_device_ip_port_cb blank row ≡ ok loaded
unfolding load_device_ip_port_cb copy_column column_int stream_url decimal header_calls
loaded_lem = refl

chosen_url_loaded_example : chosen_url loaded ≡ codes "rtsp://10.0.0.9:554"
chosen_url_loaded_example = chosen_url_loaded blank loaded row loaded_lem refl
