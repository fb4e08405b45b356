-- ===== src/Utility/Tests.antt =====
-- `strsplit` on the address of an url.
use websocket_cpp.Base.{ℕ, ◌≡◌, refl, List, [], ◌∷◌, take, some}
use websocket_cpp.Utility.{strip_prefix, find, split_loop, strsplit}

-- "ws://a:80"
abbrev url : List ℕ
url = 119 ∷ 115 ∷ 58 ∷ 47 ∷ 47 ∷ 97 ∷ 58 ∷ 56 ∷ 48 ∷ []

url_parts :
    strsplit url (47 ∷ []) [] ≡ some ((119 ∷ 115 ∷ 58 ∷ []) ∷ [] ∷ (97 ∷ 58 ∷ 56 ∷ 48 ∷ []) ∷ [])
unfolding strsplit split_loop find strip_prefix
url_parts = refl

-- `WSNet` reads `vec[2]` of these two parts.
short_url_parts : strsplit (take 5 url) (47 ∷ []) [] ≡ some ((119 ∷ 115 ∷ 58 ∷ []) ∷ [] ∷ [])
unfolding strsplit split_loop find strip_prefix take
short_url_parts = refl
