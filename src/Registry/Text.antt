-- ===== src/Registry/Text.antt =====
-- The C library's functions on texts that src/libevent_server.c and src/dev_opt.c call.
use box_rtsp.Prelude.{ℕ, Bool, true, false, ◌&&◌, ◌||◌, List, [], ◌∷◌, ◌==◌, length}
use box_rtsp.Rtsp.Text.{strncasecmp}

-- `strcmp(a, b) == 0`
unfoldable pub strcmp : List ℕ → List ℕ → Bool
strcmp [] [] = true
strcmp (a ∷ as') (b ∷ bs) = a == b && strcmp as' bs
strcmp _ _ = false

-- `strcasestr(text, pattern) != NULL`
unfoldable pub strcasestr : List ℕ → List ℕ → Bool
strcasestr [] pattern = strncasecmp [] pattern (length pattern)
strcasestr (c ∷ cs) pattern = strncasecmp (c ∷ cs) pattern (length pattern) || strcasestr cs pattern
