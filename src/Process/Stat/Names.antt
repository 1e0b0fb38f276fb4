-- ===== src/Process/Stat/Names.antt =====
-- About `parse_stat` of src/process/linux.rs, which must not be misled by the name of a process.
use codex_autoapprover.Prelude.{
  all_below, all_below_sound, ltb, nat_eqb_iff, ◌+◌, append_assoc, drop, is_ascii_digit, sym, take,
  take-length, and-eq-true, split_whitespace-space, ◌<◌, All, ap, false, get_elem?, is_break,
  length-append, nat_eqb, ok, split_whitespace-word, subst, ◌∙◌, ◌≤◌, ◌&&◌, ◌++◌, Bool, Lacks, List,
  [], all, arith, is_nil, is_whitespace, length, none, not, refl, some, split_whitespace, true, ℕ,
  ◌∷◌, ◌≡◌,
}
use codex_autoapprover.Process.Stat.{
  parse_stat, char_len, max_u32, max_u64, parse_fields, str_len, Text, find, rfind, trim, trim_end,
  trim_start,
}
use codex_autoapprover.Prelude.Decimal.{
  is_plain, is_plain-Lacks, parse_unsigned, to_decimal_plain, parse_unsigned-to_decimal, to_decimal,
}

find-front :
    (c : ℕ) (front rest : Text) → Lacks c front → find c (front ++ c ∷ rest) ≡ some (length front)
unfolding find
find-front c [] rest h = ground arith
find-front c (d ∷ front) rest h = ground (arith, find-front c front rest h.1)

rfind-Lacks : (c : ℕ) (back : Text) → Lacks c back → rfind c back ≡ none
unfolding rfind
rfind-Lacks c [] h = refl
rfind-Lacks c (d ∷ back) h = ground (arith, rfind-Lacks c back h.1)

rfind-back :
    (c : ℕ) (front back : Text) → Lacks c back → rfind c (front ++ c ∷ back) ≡ some (length front)
unfolding rfind
rfind-back c [] back h = ground (arith, rfind-Lacks c back h)
rfind-back c (d ∷ front) back h = ground (arith, rfind-back c front back h)

-- A word has a character and no white space.
abbrev pub is_dense : Text → Bool
is_dense w = all (λ c. not (is_whitespace c)) w

abbrev pub is_word : Text → Bool
is_word w = not (is_nil w) && is_dense w

trim_end-dense : (w : Text) → is_dense w ≡ true → trim_end (w ++ 32 ∷ []) ≡ w
unfolding trim_end is_whitespace
trim_end-dense [] h = refl
trim_end-dense (c ∷ w) h = ground (arith, trim_end-dense w)

trim-word : (w : Text) → is_word w ≡ true → trim (w ++ 32 ∷ []) ≡ w
unfolding trim trim_start
trim-word [] h = ground arith
trim-word (c ∷ w) h = ground (arith, trim_end-dense (c ∷ w))

-- The words of a text in which each word follows a space.
unfoldable pub join_words : List Text → Text
join_words [] = []
join_words (w ∷ ws) = 32 ∷ (w ++ join_words ws)

join_words-break : (vs : List Text) → is_break (join_words vs) ≡ true
unfolding join_words is_break is_whitespace
join_words-break [] = refl
join_words-break (v ∷ vs) = refl

split_whitespace-first :
    (w : Text) (ws : List Text)
    → is_word w ≡ true
    → split_whitespace (w ++ join_words ws) ≡ w ∷ split_whitespace (join_words ws)
split_whitespace-first [] ws h = ground arith
split_whitespace-first (c ∷ w) ws h =
    split_whitespace-word c w (join_words ws) h (join_words-break ws)

split_whitespace-nil : split_whitespace [] ≡ []
unfolding split_whitespace
split_whitespace-nil = refl

split_whitespace-join_words :
    (ws : List Text) → all is_word ws ≡ true → split_whitespace (join_words ws) ≡ ws
unfolding join_words
split_whitespace-join_words [] h = split_whitespace-nil
split_whitespace-join_words (w ∷ ws) h =
    let (first, more) = and-eq-true (is_word w) (all is_word ws) h in
    split_whitespace-space (w ++ join_words ws)
    ∙ (split_whitespace-first w ws first ∙ ap (λ t. w ∷ t) (split_whitespace-join_words ws more))

get_elem?-append : (xs ys : List Text) (y : Text) → get_elem? (xs ++ y ∷ ys) (length xs) ≡ some y
get_elem?-append [] ys y = refl
get_elem?-append (x ∷ xs) ys y = get_elem?-append xs ys y

Lacks-append : (c : ℕ) (xs ys : Text) → Lacks c xs → Lacks c ys → Lacks c (xs ++ ys)
Lacks-append c [] ys h k = k
Lacks-append c (x ∷ xs) ys h k = (h.0, Lacks-append c xs ys h.1 k)

Lacks-join_words :
    (c : ℕ) (ws : List Text) → nat_eqb 32 c ≡ false → All (Lacks c) ws → Lacks c (join_words ws)
unfolding join_words
Lacks-join_words c [] h k = tt
Lacks-join_words c (w ∷ ws) h k =
    (h, Lacks-append c w (join_words ws) k.0 (Lacks-join_words c ws h k.1))

-- The fields behind the name: the state, the parent, seventeen more, the start time, and the rest.
unfoldable pub fields_of : ℕ → ℕ → List Text → ℕ → List Text → List Text
fields_of state parent_pid middle start_time rest =
    (state ∷ []) ∷ to_decimal parent_pid ∷ (middle ++ to_decimal start_time ∷ rest)

-- The line that the kernel writes for a process.
unfoldable pub stat_line : ℕ → Text → List Text → Text
unfolding join_words
stat_line pid name fields = (to_decimal pid ++ 32 ∷ []) ++ (40 ∷ (name ++ 41 ∷ join_words fields))

parse_fields-fields_of :
    (pid state parent_pid start_time : ℕ) (middle rest : List Text)
    → parent_pid ≤ max_u32
    → start_time ≤ max_u64
    → state < 0x80
    → length middle ≡ 17
    → parse_fields pid (fields_of state parent_pid middle start_time rest)
      ≡ ok (record {
        identity = record { pid = pid; start_time = start_time; effective_uid = 0 };
        parent_pid = parent_pid;
      })
unfolding parse_fields fields_of str_len char_len
parse_fields-fields_of pid state parent_pid start_time middle rest p s a m = ground (
  arith,
  parse_unsigned-to_decimal max_u32 parent_pid p,
  parse_unsigned-to_decimal max_u64 start_time s,
  length-append middle (to_decimal start_time ∷ rest),
  subst (λ n. get_elem? (middle ++ to_decimal start_time ∷ rest) n ≡ some (to_decimal start_time)) m
      (get_elem?-append middle rest (to_decimal start_time)),
)

parse_stat-at :
    (content : Text) (pid opening closing : ℕ) (fields : List Text)
    → find 40 content ≡ some opening
    → rfind 41 content ≡ some closing
    → ltb opening closing ≡ true
    → parse_unsigned max_u32 (trim (take opening content)) ≡ some pid
    → split_whitespace (drop (closing + 1) content) ≡ fields
    → parse_stat content pid ≡ parse_fields pid fields
unfolding parse_stat
parse_stat-at content pid opening closing fields f r l p s =
    rw (f, r, l, p, (nat_eqb_iff pid pid).1 refl, s) refl

drop-past : (xs ys : Text) (y : ℕ) → drop (length xs + 1) (xs ++ y ∷ ys) ≡ ys
drop-past [] ys y = refl
drop-past (x ∷ xs) ys y = ground (arith, drop-past xs ys y)

digit_table : all_below 58 (λ c. not (is_ascii_digit c && is_whitespace c)) ≡ true
unfolding all_below is_ascii_digit is_whitespace
digit_table = refl

digit-below : (c : ℕ) → is_ascii_digit c ≡ true → c < 58
unfolding is_ascii_digit
digit-below c h = ground arith

digit-dense : (c : ℕ) → is_ascii_digit c ≡ true → not (is_whitespace c) ≡ true
digit-dense c h =
    let row =
      all_below_sound 58 (λ d. not (is_ascii_digit d && is_whitespace d)) c digit_table
        (digit-below c h) in
    ground arith

digits-is_dense : (w : Text) → all is_ascii_digit w ≡ true → is_dense w ≡ true
digits-is_dense [] h = refl
digits-is_dense (c ∷ w) h = ground (arith, digit-dense c, digits-is_dense w)

is_plain-is_word : (w : Text) → is_plain w ≡ true → is_word w ≡ true
is_plain-is_word [] h = cc
is_plain-is_word (c ∷ []) h = ground (arith, digit-dense c)
is_plain-is_word (c ∷ d ∷ w) h = ground (arith, digit-dense c, digits-is_dense (d ∷ w))

-- The line, cut at the last closing parenthesis.
stat_line-cut :
    (pid : ℕ) (name : Text) (fields : List Text)
    → stat_line pid name fields
      ≡ ((to_decimal pid ++ 32 ∷ []) ++ 40 ∷ name) ++ 41 ∷ join_words fields
unfolding stat_line
stat_line-cut pid name fields =
    sym (append_assoc (to_decimal pid ++ 32 ∷ []) (40 ∷ name) (41 ∷ join_words fields))

parse_stat-stat_line :
    (pid : ℕ) (name : Text) (fields : List Text)
    → pid ≤ max_u32
    → all is_word fields ≡ true
    → All (Lacks 41) fields
    → parse_stat (stat_line pid name fields) pid ≡ parse_fields pid fields
unfolding stat_line
parse_stat-stat_line pid name fields p w l =
    let front : Text = to_decimal pid ++ 32 ∷ [] in
    let whole : Text = front ++ 40 ∷ name in
    let plain = to_decimal_plain pid in
    parse_stat-at (stat_line pid name fields) pid (length front) (length whole) fields
      (find-front 40 front (name ++ 41 ∷ join_words fields) (
        Lacks-append 40 (to_decimal pid) (32 ∷ [])
          (is_plain-Lacks 40 (to_decimal pid) (ground arith) plain) (ground arith)))
      (ap (rfind 41) (stat_line-cut pid name fields)
        ∙ rfind-back 41 whole (join_words fields) (Lacks-join_words 41 fields (ground arith) l))
      (ground (arith, length-append front (40 ∷ name)))
      (ap (λ t. parse_unsigned max_u32 (trim t))
          (take-length front (40 ∷ (name ++ 41 ∷ join_words fields)))
        ∙ (ap (parse_unsigned max_u32)
              (trim-word (to_decimal pid) (is_plain-is_word (to_decimal pid) plain))
            ∙ parse_unsigned-to_decimal max_u32 pid p))
      (ap (λ t. split_whitespace (drop (length whole + 1) t)) (stat_line-cut pid name fields)
        ∙ (ap split_whitespace (drop-past whole (join_words fields) 41)
            ∙ split_whitespace-join_words fields w))

-- Whatever the name of a process is, with parentheses, spaces, line ends or numbers in it,
-- `parse_stat` reads the process's own number, parent and start time from the line that the kernel
-- writes: for a state of one ASCII character that is no white space and no closing parenthesis, and
-- any other fields without white space and closing parentheses.
pub parse_stat-reads :
    (pid parent_pid start_time state : ℕ) (name : Text) (middle rest : List Text)
    → pid ≤ max_u32
    → parent_pid ≤ max_u32
    → start_time ≤ max_u64
    → state < 0x80
    → length middle ≡ 17
    → all is_word (fields_of state parent_pid middle start_time rest) ≡ true
    → All (Lacks 41) (fields_of state parent_pid middle start_time rest)
    → parse_stat (stat_line pid name (fields_of state parent_pid middle start_time rest)) pid
      ≡ ok (record {
        identity = record { pid = pid; start_time = start_time; effective_uid = 0 };
        parent_pid = parent_pid;
      })
parse_stat-reads pid parent_pid start_time state name middle rest p q s a m w l =
    parse_stat-stat_line pid name (fields_of state parent_pid middle start_time rest) p w l
    ∙ parse_fields-fields_of pid state parent_pid start_time middle rest q s a m
