-- ===== src/Registry/Outside.antt =====
-- What lies outside of src/libevent_server.c and src/dev_opt.c: libevent's buffers, SimCList, cJSON,
-- SQLite, the sum of MD5, and what the RTSP parser takes from outside.
use box_rtsp.Prelude.{ℕ, Bool, List}
use box_rtsp.Rtsp.Parser.{Env}
use box_rtsp.Relay.Lists.{Evbuffer, ListT}
use box_rtsp.Server.Json.{Json}
use box_rtsp.Registry.Database.{Database}

-- `parser_granted` says whether `malloc` grants a parser.
pub record Outside (B L J : Type 0) : Type 0 where
  pub buffer : Evbuffer B
  pub list : ListT L
  pub json : Json J
  pub database : Database
  pub md5 : List ℕ → List ℕ
  pub env : Env
  pub parser_granted : Bool
