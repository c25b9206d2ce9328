-- ===== src/Relay/Task.antt =====
-- src/dev_opt.c, read_video_data_from_dev_task: the loop over the packets.
use box_rtsp.Prelude.{Bool, true, false, List, [], ◌∷◌, if◌then◌else◌, ltb, ℤ}
use box_rtsp.Rtsp.Exec.{Exec, ok, ◌>>=◌}
use box_rtsp.Relay.Lists.{Evbuffer, ListT}
use box_rtsp.Relay.Packets.{Packet, admit}
use box_rtsp.Relay.Dispatch.{Store, dispatch}

-- The packets are those that av_read_frame gives before it fails. The loop leaves when nobody
-- watches or when it fails.
module _ {B L : Type 0} (e : Evbuffer B) (t : ListT L) (videoindex audioindex : ℤ) where
  unfoldable pub relay : Bool → List Packet → L → Store B → Exec (L × Store B)
  relay i_flag [] l s = ok (l, s)
  relay i_flag (k ∷ ks) l s =
      if ltb (t.list_size l) 1
      then ok (l, s)
      else let (passes, flag) = admit videoindex audioindex i_flag k in
        elim passes [
          | false ↦ relay flag ks l s
          | true ↦ dispatch e t k l s >>= λ r. relay flag ks r.0 r.1
        ]
