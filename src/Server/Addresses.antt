-- ===== src/Server/Addresses.antt =====
-- src/libevent_server.c and src/dev_opt.c: the addresses of a camera that was loaded.
use box_rtsp.Prelude.{ℕ, suc, ◌≡◌, refl, false, List, [], arith, ◌==◌, length, ℤ, pos}
use box_rtsp.Prelude.Int.{eq_int}
use box_rtsp.Rtsp.Exec.{ok}
use box_rtsp.Server.Device.{
  Device, Row, copy_column, column_int, stream_url, load_device_ip_port_cb, chosen_url,
}
use box_rtsp.Server.Returned.{Yields, Yields-after, Yields-ok}

-- After a load the URL of the second stream is not empty, whatever the columns hold.
HasSub : Device → Type 0
HasSub d = (length d.sub_url == 0) ≡ false

suc_some : (n : ℕ) → (suc n == 0) ≡ false
suc_some n = ground arith

stream_url_some :
    (ip : List ℕ) (port : ℤ) (path : List ℕ) → (length (stream_url ip port path) == 0) ≡ false
unfolding stream_url
stream_url_some ip port path = suc_some _

load-HasSub : (d : Device) (row : Row) → Yields HasSub (load_device_ip_port_cb d row)
unfolding load_device_ip_port_cb HasSub
load-HasSub d row = Yields-after HasSub (copy_column 16 d.dev_ip row.ip) _ (λ ip.
    Yields-after HasSub (column_int row.port) _ (λ port.
      Yields-after HasSub (copy_column 64 d.user_name row.user) _ (λ user.
        Yields-after HasSub (copy_column 64 d.user_passwd row.passwd) _ (λ passwd.
          Yields-after HasSub (copy_column 128 d.basic_authenticate row.authenticate) _
            (λ authenticate. Yields-after HasSub (copy_column 512 [] row.main) _ (λ main.
              Yields-after HasSub (copy_column 512 [] row.sub) _
                (λ sub. stream_url_some ip port sub)))))))

-- A camera that was loaded is opened by the URL of its second stream where the stream type is not 0,
-- also where the data base has no path for that stream: the main URL is never used in its place.
pub chosen_url_loaded :
    (d loaded : Device) (row : Row)
    → load_device_ip_port_cb d row ≡ ok loaded
    → eq_int loaded.stream_type (pos 0) ≡ false
    → chosen_url loaded ≡ loaded.sub_url
unfolding chosen_url HasSub
chosen_url_loaded d loaded row e t =
    rw (t, Yields-ok HasSub (load_device_ip_port_cb d row) loaded (load-HasSub d row) e) refl
