-- ===== src/Rtsp/Getters.antt =====
-- src/common/rtsp-parser.c: what a finished message is asked for. A pointer into the buffer is its
-- index; `none` is NULL.
use box_rtsp.Prelude.{
  ℕ, zero, suc, Bool, true, false, not, List, [], ◌∷◌, Option, none, some, ltb, ◌==◌, if◌then◌else◌,
  length, ℤ, pos, negsuc,
}
use box_rtsp.Prelude.Int.{eq_int}
use box_rtsp.Rtsp.Text.{string_at, strcasecmp, atoi}
use box_rtsp.Rtsp.Parser.{Mode, StateM, Header, Parser, sub_size, to_int}
use box_rtsp.Rtsp.Exec.{Exec, ok, ◌>>◌, assert}

-- `stateM >= SM_BODY`
unfoldable pub headers_read : Parser → Bool
headers_read p = elim p.state_m [ StateM.body b ↦ true | StateM.done ↦ true | _ ↦ false ]

unfoldable pub is_server_mode : Parser → Bool
is_server_mode p = elim p.server_mode [ Mode.server ↦ true | Mode.client ↦ false ]

unfoldable pub rtsp_get_version : Parser → Exec (ℤ × ℤ)
unfolding headers_read
rtsp_get_version p = do assert (headers_read p); ok (p.vermajor, p.verminor)

unfoldable pub rtsp_get_status_code : Parser → Exec ℤ
unfolding headers_read is_server_mode
rtsp_get_status_code p = do
  assert (headers_read p)
  assert (not (is_server_mode p))
  ok p.reply.code

unfoldable pub rtsp_get_status_reason : Parser → Exec ℕ
unfolding headers_read is_server_mode
rtsp_get_status_reason p = do
  assert (headers_read p)
  assert (not (is_server_mode p))
  ok p.reply.reason.pos

unfoldable pub rtsp_get_request_method : Parser → Exec ℕ
unfolding headers_read is_server_mode
rtsp_get_request_method p = do
  assert (headers_read p)
  assert (is_server_mode p)
  ok p.req.method.pos

unfoldable pub rtsp_get_request_uri : Parser → Exec ℕ
unfolding headers_read is_server_mode
rtsp_get_request_uri p = do assert (headers_read p); assert (is_server_mode p); ok p.req.uri.pos

unfoldable pub rtsp_get_content : Parser → Exec ℕ
unfolding headers_read
rtsp_get_content p = do assert (headers_read p); assert (not (ltb p.raw_size p.offset)); ok p.offset

unfoldable pub rtsp_get_header_count : Parser → Exec ℕ
unfolding headers_read
rtsp_get_header_count p = do assert (headers_read p); ok (length p.headers)

unfoldable pub get_header? : List Header → ℕ → Option Header
get_header? [] i = none
get_header? (h ∷ hs) zero = some h
get_header? (h ∷ hs) (suc i) = get_header? hs i

-- The starts of name and value of header `idx`; `none` is EINVAL.
unfoldable pub rtsp_get_header : Parser → ℤ → Exec (Option (ℕ × ℕ))
unfolding headers_read get_header?
rtsp_get_header p idx = do
  assert (headers_read p)
  ok (elim idx [
    | negsuc n ↦ none
    | pos i ↦ elim (get_header? p.headers i) [
      | none ↦ none
      | some h ↦ some (h.name.pos, h.value.pos)
    ]
  ])

-- The first header of that name.
unfoldable pub find_header : List ℕ → List ℕ → List Header → Option Header
unfolding strcasecmp string_at
find_header raw name [] = none
find_header raw name (h ∷ hs) =
    if strcasecmp (string_at raw h.name.pos) name then some h else find_header raw name hs

unfoldable pub rtsp_get_header_by_name : Parser → List ℕ → Exec (Option ℕ)
unfolding headers_read find_header
rtsp_get_header_by_name p name = do
  assert (headers_read p)
  ok (elim (find_header p.raw name p.headers) [ none ↦ none | some h ↦ some h.value.pos ])

-- The value as a number, or -1 as the result.
unfoldable pub rtsp_get_header_by_name2 : Parser → List ℕ → Exec (Option ℤ)
unfolding headers_read find_header atoi string_at
rtsp_get_header_by_name2 p name = do
  assert (headers_read p)
  ok (elim (find_header p.raw name p.headers) [
    | none ↦ none
    | some h ↦ some (atoi (string_at p.raw h.value.pos))
  ])

unfoldable pub rtsp_get_content_length : Parser → Exec ℤ
unfolding headers_read is_server_mode
rtsp_get_content_length p = do
  assert (headers_read p)
  if eq_int p.content_length (negsuc 0)
      then (do assert (not (is_server_mode p)); ok (to_int (sub_size p.raw_size p.offset)))
      else ok p.content_length

unfoldable pub rtsp_get_connection : Parser → Exec ℤ
unfolding headers_read
rtsp_get_connection p = do assert (headers_read p); ok p.connection_close

-- A field that holds an index, 0 for none.
unfoldable pub or_null : ℕ → Option ℕ
or_null i = if i == 0 then none else some i

unfoldable pub rtsp_get_content_encoding : Parser → Exec (Option ℕ)
unfolding headers_read or_null
rtsp_get_content_encoding p = do assert (headers_read p); ok (or_null p.content_encoding)

unfoldable pub rtsp_get_transfer_encoding : Parser → Exec (Option ℕ)
unfolding headers_read or_null
rtsp_get_transfer_encoding p = do assert (headers_read p); ok (or_null p.transfer_encoding)

unfoldable pub rtsp_get_cookie : Parser → Exec (Option ℕ)
unfolding headers_read is_server_mode or_null
rtsp_get_cookie p = do
  assert (headers_read p)
  assert (not (is_server_mode p))
  ok (or_null p.cookie)

unfoldable pub rtsp_get_location : Parser → Exec (Option ℕ)
unfolding headers_read is_server_mode or_null
rtsp_get_location p = do
  assert (headers_read p)
  assert (not (is_server_mode p))
  ok (or_null p.location)
