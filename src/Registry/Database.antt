-- ===== src/Registry/Database.antt =====
-- src/libevent_server.c: sql_operation, and the search for a camera in the data base, which
-- deal_open_video_cmd and push_stream have in common.
use box_rtsp.Prelude.{
  ℕ, Bool, not, List, [], ◌∷◌, ◌++◌, Option, none, some, ltb, if◌then◌else◌, length, ℤ, pos, negsuc,
}
use box_rtsp.Prelude.Int.{is_neg}
use box_rtsp.Rtsp.Exec.{Exec, ok, ◌>>=◌}
use box_rtsp.Rtsp.Headers.{codes}
use box_rtsp.Server.Device.{Device, Row, load_device_ip_port_cb, decimal, snprintf}
use box_rtsp.Registry.Text.{strcmp}

-- What SQLite does with a query: whether the file is opened, the rows for which sqlite3_exec calls
-- the callback, and the message where the call fails.
pub record Answer : Type 0 where
  pub opened : Bool
  pub rows : List Row
  pub errmsg : Option (List ℕ)

abbrev pub Database : Type 0
Database = List ℕ → Answer

abbrev pub each_row : {A : Type 0} → (A → Row → Exec A) → A → List Row → Exec A
each_row callback arg [] = ok arg
each_row callback arg (r ∷ rs) = callback arg r >>= λ a. each_row callback a rs

-- The code for a failure of sqlite3_exec.
unfoldable pub errcode : Option (List ℕ) → ℤ
errcode none = pos 0
errcode (some msg) =
    if strcmp msg (codes "UNIQUE constraint failed: dev_add_web_data.dev_id")
    then negsuc 1
    else negsuc 2

module _ (db : Database) where
  -- The result, and what the callback's argument points to.
  unfoldable pub sql_operation : {A : Type 0} → List ℕ → (A → Row → Exec A) → A → Exec (ℤ × A)
  sql_operation sql callback arg =
      if not (db sql).opened
      then ok (negsuc 0, arg)
      else (each_row callback arg (db sql).rows >>= λ a. ok (errcode (db sql).errmsg, a))

  unfoldable pub dev_sql : List ℕ → ℤ → List ℕ
  dev_sql dev_id dev_chnl = snprintf 1024 (
      codes "select dev_ip,rtsp_port,dev_login_usr,dev_login_passwd,basic_authenticate,"
      ++ (codes "rtsp_list.rtsp_main,rtsp_list.rtsp_sub from onvif_dev_data left join rtsp_list "
          ++ (codes "on onvif_dev_data.dev_id='"
              ++ (dev_id
                  ++ (codes "' where rtsp_list.[dev_id]=onvif_dev_data.dev_id "
                      ++ (codes "and rtsp_list.[dev_chnl_num]='"
                          ++ (decimal dev_chnl ++ codes "'")))))))

  -- A `DEV_LIST_OBJ` after `memset`.
  abbrev pub no_camera : Device
  no_camera = record {
    stream_type = pos 0;
    dev_ip = [];
    rtsp_port = pos 0;
    main_url = [];
    sub_url = [];
    user_name = [];
    user_passwd = [];
    basic_authenticate = [];
  }

  -- What the row gives, or `none` where the new object is freed and HB_FAILURE returned.
  unfoldable pub load_camera : List ℕ → ℤ → Exec (Option Device)
  load_camera dev_id dev_chnl =
      sql_operation (dev_sql dev_id dev_chnl) load_device_ip_port_cb no_camera >>= λ r.
      if is_neg r.0 then ok none else if ltb (length r.1.dev_ip) 7 then ok none else ok (some r.1)
