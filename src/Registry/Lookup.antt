-- ===== src/Registry/Lookup.antt =====
-- src/libevent_server.c: analysis_json_dev_info and DevSeeker.
use box_rtsp.Prelude.{
  ℕ, Bool, false, ◌&&◌, List, Option, none, some, leb, if◌then◌else◌, length, ℤ, pos, negsuc,
}
use box_rtsp.Prelude.Int.{eq_int}
use box_rtsp.UrlCode.{url_decode}
use box_rtsp.Rtsp.Exec.{Halt, Exec, ok, halt, ◌>>=◌}
use box_rtsp.Rtsp.Headers.{codes}
use box_rtsp.Rtsp.Text.{c_string}
use box_rtsp.Relay.Lists.{ListT}
use box_rtsp.Server.Json.{Json}
use box_rtsp.Registry.Text.{strcmp}
use box_rtsp.Registry.World.{World}

-- `DEV_INFO_OBJ`
pub record DevInfo : Type 0 where
  pub dev_id : List ℕ
  pub dev_chnl : ℤ
  pub dev_stream_type : ℤ

-- `MAX_DEV_ID_LEN`
abbrev pub max_dev_id_len : ℕ
max_dev_id_len = 256

-- `strcpy` into an array of that many bytes.
unfoldable pub strcpy : ℕ → Option (List ℕ) → Exec (List ℕ)
strcpy size none = halt Halt.faults
strcpy size (some s) = if leb size (length s) then halt Halt.faults else ok s

module _ {J : Type 0} (j : Json J) where
  -- A text and a number that stay as they are where there is no item.
  unfoldable pub dev_text : List ℕ → Option J → Exec (List ℕ)
  dev_text old none = ok old
  dev_text old (some item) = strcpy max_dev_id_len (j.valuestring item)

  unfoldable pub dev_number : ℤ → Option J → ℤ
  dev_number old none = old
  dev_number old (some item) = j.valueint item

  -- Behind the test of the command's type.
  unfoldable pub dev_members : Option J → DevInfo → Exec (ℤ × DevInfo)
  dev_members root i = do
    dev_id ← j.get_object_item root (codes "devId")
    text ← dev_text i.dev_id dev_id
    dev_chnl ← j.get_object_item root (codes "devChnl")
    stream_type ← j.get_object_item root (codes "devStreamType")
    ok (
      pos 0,
      record {
        dev_id = text;
        dev_chnl = dev_number i.dev_chnl dev_chnl;
        dev_stream_type = dev_number i.dev_stream_type stream_type;
      },
    )

  unfoldable pub dev_command : Option J → Option J → DevInfo → Exec (ℤ × DevInfo)
  dev_command root none i = ok (negsuc 0, i)
  dev_command root (some item) i = elim (j.valuestring item) [
    | none ↦ halt Halt.faults
    | some s ↦ if strcmp s (codes "open_video") then dev_members root i else ok (negsuc 0, i)
  ]

  -- The result, and what the pointers of the caller point to.
  unfoldable pub analysis_json_dev_info : List ℕ → DevInfo → Exec (ℤ × DevInfo)
  analysis_json_dev_info text i = elim (j.parse text) [
    | none ↦ ok (negsuc 0, i)
    | some root ↦
        j.get_object_item (some root) (codes "cmdType") >>= λ c. dev_command (some root) c i
  ]

-- The name without its escapes, `pDevId` of the key.
unfoldable pub decoded : List ℕ → List ℕ
decoded s = c_string (url_decode s (pos (length s)) max_dev_id_len).target

module _ {B L : Type 0} (t : ListT L) where
  unfoldable pub dev_seeker : World B L → DevInfo → ℕ → Bool
  dev_seeker w key d = elim (w.devices d) [
    | none ↦ false
    | some x ↦
        strcmp x.dev_id key.dev_id
        && eq_int x.dev_chnl key.dev_chnl
        && eq_int x.camera.stream_type key.dev_stream_type
  ]

  -- list_attributes_seeker and list_seek
  unfoldable pub seek_device : World B L → DevInfo → Option ℕ
  seek_device w key = t.list_seek w.dev_list (dev_seeker w key)
