-- ===== src/Bundle/Placed.antt =====
-- Where `append_log_line` puts a line, pk-store/src/bundle.rs: against a reference on lists of lines.
use prometheus_knowledge_rs.Prelude.{
  ℕ, suc, ◌≡◌, refl, sym, ap, ◌∙◌, inl, inr, Bool, true, false, not, Option, none, some, List, [],
  ◌∷◌, ◌++◌, map, arith, if◌then◌else◌, Bool-cases, bind, keep, any, is_empty, All, Chars, trim,
  chars_eq,
}
use mathlib.Core.List.{append_assoc}
use prometheus_knowledge_rs.Texts.{lines, ends_with, join}
use prometheus_knowledge_rs.Bundle.{
  date_heading, is_date_heading, log_title, position, behind, place_of_group, insert_at, insert_all,
  log_lines, finish_log,
}
use prometheus_knowledge_rs.Bundle.Dated.{IsLine, drop_cr, lines-append}

-- The reference: a line behind the first one that passes a test, or a block before it.
abbrev pub put_behind : (Chars → Bool) → List Chars → List Chars → List Chars
put_behind p block [] = []
put_behind p block (l ∷ ls) =
    let rest = put_behind p block ls in if p l then l ∷ (block ++ ls) else l ∷ rest

abbrev pub put_before : (Chars → Bool) → List Chars → List Chars → List Chars
put_before p block [] = []
put_before p block (l ∷ ls) =
    let rest = put_before p block ls in if p l then block ++ (l ∷ ls) else l ∷ rest

abbrev pub is_heading_of : Chars → Chars → Bool
is_heading_of date l = chars_eq (trim l) (date_heading date)

abbrev pub is_title : Chars → Bool
is_title l = chars_eq (trim l) log_title

-- Under the date's heading, if there is one; else a new group before the first group, or behind the
-- title, or at the start.
abbrev pub placed : Chars → Chars → List Chars → List Chars
placed date line ls =
    let group = date_heading date ∷ line ∷ [] ∷ [] in
    if any (is_heading_of date) ls
    then put_behind (is_heading_of date) (line ∷ []) ls
    else if any is_date_heading ls
    then put_before is_date_heading group ls
    else if any is_title ls
    then put_behind is_title group ls
    else group ++ ls

-- The lines that a log has after an addition, by the reference.
abbrev pub extended : Chars → Chars → Chars → List Chars
extended existing date line =
    if is_empty (trim existing)
    then log_title ∷ [] ∷ date_heading date ∷ line ∷ []
    else placed date line (lines existing)

insert_all-suc :
    (n : ℕ) (bs ls : List Chars) (l : Chars)
    → insert_all (suc n) bs (l ∷ ls) ≡ l ∷ insert_all n bs ls
insert_all-suc n [] ls l = refl
insert_all-suc n (b ∷ bs) ls l = insert_all-suc (suc n) bs (insert_at n b ls) l

insert_all-zero : (bs ls : List Chars) → insert_all 0 bs ls ≡ bs ++ ls
insert_all-zero [] ls = refl
insert_all-zero (b ∷ bs) ls = insert_all-suc 0 bs ls b ∙ ap (λ xs. b ∷ xs) (insert_all-zero bs ls)

module _ (p : Chars → Bool) (block : List Chars) where
  -- What a position says, in the terms of the reference.
  abbrev IsFound : List Chars → Option ℕ → Type 0
  IsFound ls none = any p ls ≡ false
  IsFound ls (some n) =
      (any p ls ≡ true)
      × (insert_all n block ls ≡ put_before p block ls)
      × (insert_all (suc n) block ls ≡ put_behind p block ls)

  later-IsFound :
      (l : Chars) (ls : List Chars) (o : Option ℕ)
      → p l ≡ false
      → IsFound ls o
      → IsFound (l ∷ ls) (bind o (λ (n : ℕ). some (suc n)))
  later-IsFound l ls none off h = rw (off, h) refl
  later-IsFound l ls (some n) off (found, before, after) = (
    rw (off, found) refl,
    rw off (insert_all-suc n block ls l ∙ ap (λ xs. l ∷ xs) before),
    rw off (insert_all-suc (suc n) block ls l ∙ ap (λ xs. l ∷ xs) after),
  )

  here-IsFound : (l : Chars) (ls : List Chars) → p l ≡ true → IsFound (l ∷ ls) (some 0)
  here-IsFound l ls on = (
    rw on refl,
    rw on (insert_all-zero block (l ∷ ls)),
    rw on (insert_all-suc 0 block ls l ∙ ap (λ xs. l ∷ xs) (insert_all-zero block ls)),
  )

  position-IsFound : (ls : List Chars) → IsFound ls (position p ls)
  position-IsFound [] = refl
  position-IsFound (l ∷ ls) = elim (Bool-cases (p l)) [
    | inl on ↦ rw (on, position) (here-IsFound l ls on)
    | inr off ↦ rw (off, position) (later-IsFound l ls (position p ls) off (position-IsFound ls))
  ]

module _ (date line : Chars) where
  abbrev group_of : List Chars
  group_of = date_heading date ∷ line ∷ [] ∷ []

  title-placed :
      (ls : List Chars) (o : Option ℕ)
      → IsFound is_title group_of ls o
      → insert_all (behind o) group_of ls
        ≡ (if any is_title ls then put_behind is_title group_of ls else group_of ++ ls)
  title-placed ls none h = rw h (insert_all-zero group_of ls)
  title-placed ls (some n) (found, before, after) = rw found after

  group-placed :
      (ls : List Chars) (o : Option ℕ)
      → IsFound is_date_heading group_of ls o
      → insert_all (place_of_group o ls) group_of ls ≡ (
          if any is_date_heading ls
          then put_before is_date_heading group_of ls
          else if any is_title ls
          then put_behind is_title group_of ls
          else group_of ++ ls)
  group-placed ls none h =
      rw h (title-placed ls (position is_title ls) (position-IsFound is_title group_of ls))
  group-placed ls (some n) (found, before, after) = rw found before

  line-placed :
      (ls : List Chars) (o : Option ℕ)
      → IsFound (is_heading_of date) (line ∷ []) ls o
      → log_lines date line o ls ≡ placed date line ls
  line-placed ls none h =
      rw h (
        group-placed ls (position is_date_heading ls)
          (position-IsFound is_date_heading group_of ls))
  line-placed ls (some n) (found, before, after) = rw found after

  -- The search for positions and the insertions there are the reference.
  pub log_lines-placed :
      (ls : List Chars)
      → log_lines date line (position (is_heading_of date) ls) ls ≡ placed date line ls
  log_lines-placed ls =
      line-placed ls (position (is_heading_of date) ls)
        (position-IsFound (is_heading_of date) (line ∷ []) ls)

-- The lines of a text that are not empty.
abbrev pub filled_lines : List Chars → List Chars
filled_lines ls = keep (λ l. not (is_empty l)) ls

lines_ended_all :
    (l : Chars) (ls : List Chars)
    → All IsLine (l ∷ ls)
    → lines (join (10 ∷ []) (l ∷ ls) ++ (10 ∷ [])) ≡ map drop_cr (l ∷ ls)
unfolding join lines
lines_ended_all l [] (line, h) = lines-append l [] line
lines_ended_all l (m ∷ ls) (line, h) =
    let rest = join (10 ∷ []) (m ∷ ls) in
    rw (append_assoc l (10 ∷ rest) (10 ∷ []), lines-append l (rest ++ (10 ∷ [])) line)
      (ap (λ xs. drop_cr l ∷ xs) (lines_ended_all m ls h))

keep_cons :
    (l : Chars) (ls : List Chars) → filled_lines (l ∷ ls) ≡ filled_lines (l ∷ []) ++ filled_lines ls
keep_cons [] ls = refl
keep_cons (c ∷ l) ls = refl

ends_with-line : (l : Chars) → IsLine l → ends_with (10 ∷ []) l ≡ false
unfolding ends_with
ends_with-line [] h = refl
ends_with-line (c ∷ l) h = ground (arith, ends_with-line l)

ends_with_behind :
    (l : Chars) (c : ℕ) (s : Chars)
    → IsLine l
    → ends_with (10 ∷ []) (l ++ (10 ∷ c ∷ s)) ≡ ends_with (10 ∷ []) (c ∷ s)
unfolding ends_with
ends_with_behind [] c s h = refl
ends_with_behind (d ∷ l) c s h = ground (arith, ends_with_behind l c s)

join-nil :
    (m : Chars) (ls : List Chars)
    → join (10 ∷ []) (m ∷ ls) ≡ []
    → filled_lines (map drop_cr (m ∷ ls)) ≡ []
unfolding join drop_cr
join-nil [] [] e = refl
join-nil (c ∷ m) [] e = cc
join-nil [] (n ∷ ls) e = cc
join-nil (c ∷ m) (n ∷ ls) e = cc

-- The lines behind a first one, by the text that they make.
lines_behind :
    (l : Chars) (ms : List Chars) (rest : Chars)
    → IsLine l
    → ends_with (10 ∷ []) (l ++ (10 ∷ rest)) ≡ true
    → (rest ≡ [] → filled_lines (map drop_cr ms) ≡ [])
    → (ends_with (10 ∷ []) rest ≡ true → filled_lines (lines rest) ≡ filled_lines (map drop_cr ms))
    → filled_lines (lines (l ++ (10 ∷ rest))) ≡ filled_lines (map drop_cr (l ∷ ms))
unfolding lines
lines_behind l ms [] line ends gone more = rw (lines-append l [] line) (
    keep_cons (drop_cr l) []
    ∙ sym (
        keep_cons (drop_cr l) (map drop_cr ms)
        ∙ ap (λ xs. filled_lines (drop_cr l ∷ []) ++ xs) (gone refl)))
lines_behind l ms (c ∷ s) line ends gone more =
    let same = more (sym (ends_with_behind l c s line) ∙ ends) in
    rw (lines-append l (c ∷ s) line) (
      keep_cons (drop_cr l) (lines (c ∷ s))
      ∙ ap (λ xs. filled_lines (drop_cr l ∷ []) ++ xs) same
      ∙ sym (keep_cons (drop_cr l) (map drop_cr ms)))

lines_open_all :
    (ls : List Chars)
    → All IsLine ls
    → ends_with (10 ∷ []) (join (10 ∷ []) ls) ≡ true
    → filled_lines (lines (join (10 ∷ []) ls)) ≡ filled_lines (map drop_cr ls)
unfolding join lines drop_cr
lines_open_all [] h ends = refl
lines_open_all (l ∷ []) (line, h) ends = ground (arith, ends_with-line l)
lines_open_all (l ∷ m ∷ ls) (line, h) ends =
    lines_behind l (m ∷ ls) (join (10 ∷ []) (m ∷ ls)) line ends (join-nil m ls)
      (lines_open_all (m ∷ ls) h)

pub joined_lines :
    (ls : List Chars)
    → All IsLine ls
    → filled_lines (lines (join (10 ∷ []) ls ++ (10 ∷ []))) ≡ filled_lines (map drop_cr ls)
unfolding join lines
joined_lines [] h = refl
joined_lines (l ∷ ls) h = ap filled_lines (lines_ended_all l ls h)

-- What is joined to a log is read back line by line; a line loses a carriage return at its end.
pub finish_log-lines :
    (ls : List Chars)
    → All IsLine ls
    → filled_lines (lines (finish_log ls)) ≡ filled_lines (map drop_cr ls)
unfolding finish_log
finish_log-lines ls h = elim (Bool-cases (ends_with (10 ∷ []) (join (10 ∷ []) ls))) [
  | inl ended ↦ rw ended (lines_open_all ls h ended)
  | inr open_end ↦ rw open_end (joined_lines ls h)
]
