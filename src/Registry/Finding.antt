-- ===== src/Registry/Finding.antt =====
-- src/libevent_server.c: a device that was entered into the list is looked for again.
use box_rtsp.Prelude.{Bool, ◌&&◌}
use box_rtsp.Prelude.Int.{eq_int}
use box_rtsp.Server.Device.{Device}
use box_rtsp.Relay.Lists.{ListLaws}
use box_rtsp.Registry.Text.{strcmp}
use box_rtsp.Registry.World.{Dev, World}
use box_rtsp.Registry.Outside.{Outside}
use box_rtsp.Registry.Lookup.{DevInfo}

module _ {B L J : Type 0} (o : Outside B L J) (laws : ListLaws o.list) where
  -- Whether a device has the name, the channel and the stream of a key.
  abbrev pub matches : Dev L → DevInfo → Bool
  matches x key =
      strcmp x.dev_id key.dev_id
      && eq_int x.dev_chnl key.dev_chnl
      && eq_int x.camera.stream_type key.dev_stream_type
