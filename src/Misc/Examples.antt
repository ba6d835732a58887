-- ===== src/Misc/Examples.antt =====
-- Tests of `ip_parse_arg` of src/misc.c, with the blank as the delimiter.
use ipstat.Base.{ℕ, ◌≡◌, refl, none, some, List, [], ◌∷◌, leb, length, take, if◌then◌else◌}
use ipstat.Misc.{skip_delim, cut, ip_strtok_r, parse_loop, ip_parse_arg}
use ipstat.Misc.Words.{words, ip_parse_arg-words}

abbrev blank : List ℕ
blank = 32 ∷ []

-- "  ab c ".
abbrev line : List ℕ
line = 32 ∷ (32 ∷ (97 ∷ (98 ∷ (32 ∷ (99 ∷ (32 ∷ []))))))

two_words : ip_parse_arg 4 line 3 blank ≡ some ((97 ∷ (98 ∷ [])) ∷ ((99 ∷ []) ∷ []))
unfolding ip_parse_arg parse_loop ip_strtok_r skip_delim cut
two_words = refl

-- An array of `max_tok` pointers is too small by one.
behind_the_end : ip_parse_arg 1 line 1 blank ≡ none
unfolding ip_parse_arg parse_loop ip_strtok_r skip_delim cut
behind_the_end = refl

ip_parse_arg-words_example :
    let ts = take 4 (words blank line) in
    ip_parse_arg 4 line 3 blank ≡ (if leb (length ts) 4 then some ts else none)
ip_parse_arg-words_example = ip_parse_arg-words 4 3 blank line
