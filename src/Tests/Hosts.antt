-- ===== src/Tests/Hosts.antt =====
-- A host that writes cursors and dates as texts and reads them back, and orders texts by their
-- characters.
use Prim.Native.Char.{code}
use Prim.Native.String.compare.{cons-nil}
use text.Mathlib.Text.{is_eq}
use text.Mathlib.TextEquality.{Char-path}
use maids_claw.Common.{
  ℕ, zero, suc, ◌≡◌, refl, ap, ◌∙◌, Bool, true, false, ◌==◌, ◌&&◌, ◌||◌, Option, some, String,
  str_eq, ltb, if◌then◌else◌, arith,
}
use maids_claw.Sessions.{CursorPayload, SortKey, sort_text, sort_other, Host}
use maids_claw.Sessions.Paging.{OrdersTexts}
use maids_claw.Sessions.Paging.Walk.{ReadsBack}

abbrev pub less : String → String → Bool
less String.[] String.[] = false
less String.[] (String.◌∷◌ d t) = true
less (String.◌∷◌ c s) String.[] = false
less (String.◌∷◌ c s) (String.◌∷◌ d t) = ltb (code c) (code d) || (code c == code d && less s t)

less_irreflexive : (s : String) → less s s ≡ false
less_irreflexive String.[] = refl
less_irreflexive (String.◌∷◌ c s) = ground (arith, less_irreflexive s)

less_transitive : (s t u : String) → less s t ≡ true → less t u ≡ true → less s u ≡ true
less_transitive String.[] String.[] u h k = absurd (cc h)
less_transitive String.[] (String.◌∷◌ d t) String.[] h k = absurd (cc k)
less_transitive String.[] (String.◌∷◌ d t) (String.◌∷◌ e u) h k = refl
less_transitive (String.◌∷◌ c s) String.[] u h k = absurd (cc h)
less_transitive (String.◌∷◌ c s) (String.◌∷◌ d t) String.[] h k = absurd (cc k)
less_transitive (String.◌∷◌ c s) (String.◌∷◌ d t) (String.◌∷◌ e u) h k =
    ground (arith, less_transitive s t u)

less_total : (s t : String) → less s t ≡ false → less t s ≡ false → s ≡ t
less_total String.[] String.[] h k = refl
less_total String.[] (String.◌∷◌ d t) h k = absurd (cc h)
less_total (String.◌∷◌ c s) String.[] h k = absurd (cc k)
less_total (String.◌∷◌ c s) (String.◌∷◌ d t) h k =
    let heads : code c ≡ code d = ground arith in
    let low : less s t ≡ false = ground arith in
    let high : less t s ≡ false = ground arith in
    ap (λ x. String.◌∷◌ x s) (Char-path c d heads) ∙ ap (String.◌∷◌ d) (less_total s t low high)

pub less_orders : OrdersTexts less
less_orders = record {
  irreflexive = less_irreflexive;
  transitive = less_transitive;
  total = less_total;
}

-- a number as that many ones, and a zero
abbrev write_number : ℕ → String → String
write_number zero rest = String.◌∷◌ "0" rest
write_number (suc n) rest = String.◌∷◌ "1" (write_number n rest)

abbrev read_number : String → ℕ × String
read_number String.[] = (0, "")
read_number (String.◌∷◌ c s) =
    let (n, rest) = read_number s in if code c == 49 then (suc n, rest) else (0, s)

read-write_number : (n : ℕ) (rest : String) → read_number (write_number n rest) ≡ (n, rest)
read-write_number zero rest = refl
read-write_number (suc n) rest = ap (λ w. (suc w.0, w.1)) (read-write_number n rest)

abbrev write_sort_key : SortKey → String
write_sort_key sort_other = "0"
write_sort_key (sort_text s) = String.◌∷◌ "1" s

abbrev read_sort_key : String → SortKey
read_sort_key String.[] = sort_other
read_sort_key (String.◌∷◌ c s) = if code c == 49 then sort_text s else sort_other

read-write_sort_key : (k : SortKey) → read_sort_key (write_sort_key k) ≡ k
read-write_sort_key sort_other = refl
read-write_sort_key (sort_text s) = refl

-- each character after a one, then a zero
abbrev write_first : String → String → String
write_first String.[] rest = String.◌∷◌ "0" rest
write_first (String.◌∷◌ c s) rest = String.◌∷◌ "1" (String.◌∷◌ c (write_first s rest))

abbrev read_first : String → String × String
read_first String.[] = ("", "")
read_first (String.◌∷◌ c String.[]) = ("", "")
read_first (String.◌∷◌ c (String.◌∷◌ d s)) =
    let w = read_first s in if code c == 49 then (String.◌∷◌ d w.0, w.1) else ("", String.◌∷◌ d s)

read-write_first : (s rest : String) → read_first (write_first s rest) ≡ (s, rest)
read-write_first String.[] String.[] = refl
read-write_first String.[] (String.◌∷◌ d rest) = refl
read-write_first (String.◌∷◌ c s) rest = ap (λ w. (String.◌∷◌ c w.0, w.1)) (read-write_first s rest)

abbrev to_text : CursorPayload → String
to_text p = write_number p.v (write_first p.tie_breaker (write_sort_key p.sort_key))

abbrev of_text : String → Option CursorPayload
of_text s =
    let (v, rest) = read_number s in
    let (tie_breaker, key) = read_first rest in
    some (record { v = v; sort_key = read_sort_key key; tie_breaker = tie_breaker })

reads_text : (p : CursorPayload) → of_text (to_text p) ≡ some p
reads_text p = rw (read-write_number p.v (write_first p.tie_breaker (write_sort_key p.sort_key))) (
    rw (read-write_first p.tie_breaker (write_sort_key p.sort_key))
      (rw (read-write_sort_key p.sort_key)))

abbrev pub host : Host
host = record {
  to_text = to_text;
  of_text = of_text;
  to_iso = λ t. write_number t "";
  date_parse = λ s. some (read_number s).0;
  less = less;
}

pub host-ReadsBack : ReadsBack host
host-ReadsBack = record {
  text = reads_text;
  inhabited = λ p. inhabited p.v (write_first p.tie_breaker (write_sort_key p.sort_key));
  date = λ t h. ap (λ w. some w.0) (read-write_number t "");
}
  where
    inhabited : (n : ℕ) (rest : String) → str_eq (write_number n rest) "" ≡ false
    inhabited zero rest = λ i. is_eq (cons-nil "0" rest i)
    inhabited (suc n) rest = λ i. is_eq (cons-nil "1" (write_number n rest) i)
