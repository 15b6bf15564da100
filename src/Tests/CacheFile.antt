-- ===== src/Tests/CacheFile.antt =====
-- A cache file at a concrete input (src/cache.cc).
use kwd_server.Base.{◌≡◌, refl, List, [], ◌∷◌}
use kwd_server.Cache.{SearchRetPair}
use kwd_server.Cache.File.{words_text, write_cache}

abbrev first_pair : SearchRetPair
first_pair = (b'a' ∷ [], (b'a' ∷ b't' ∷ []) ∷ (b'a' ∷ []) ∷ [])

abbrev second_pair : SearchRetPair
second_pair = (b'b' ∷ [], [])

abbrev entries : List SearchRetPair
entries = first_pair ∷ second_pair ∷ []

saved_text :
    write_cache (first_pair ∷ []) ≡ b'a' ∷ b' ' ∷ b'a' ∷ b't' ∷ b' ' ∷ b'a' ∷ b' ' ∷ b'\n' ∷ []
unfolding write_cache words_text
saved_text = refl
