-- ===== src/Server/Json.antt =====
-- What src/libevent_server.c uses of cJSON (inc/common/cJSON.h): cJSON_Parse, cJSON_GetObjectItem,
-- and the members `valuestring` and `valueint` of an item.
use box_rtsp.Prelude.{ℕ, List, [], Option, none, some, take, ℤ}
use box_rtsp.Rtsp.Exec.{Halt, Exec, ok, halt}

-- NULL is `none`. What the call does with a NULL object is the library's.
pub record Json (J : Type 0) : Type 0 where
  pub parse : List ℕ → Option J
  pub get_object_item : Option J → List ℕ → Exec (Option J)
  pub valuestring : J → Option (List ℕ)
  pub valueint : J → ℤ

module _ {J : Type 0} (j : Json J) where
  -- `strncpy(buf, item->valuestring, n)` into a zeroed array, where there is an item.
  unfoldable pub item_text : ℕ → Option J → Exec (List ℕ)
  item_text n none = ok []
  item_text n (some item) = elim (j.valuestring item) [
    | none ↦ halt Halt.faults
    | some s ↦ ok (take n s)
  ]
