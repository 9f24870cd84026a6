-- ===== src/Tests/Codes.antt =====
-- Codecs for the runs: characters as their numbers, a plaintext and a wrapper field by field.
use Prim.Native.Char.{Char, char, code, nul, IsLt, IsScalar}
use Prim.Native.Nat.{Ordering, compare}
use text.Mathlib.TextEquality.{Char-path}
use pinch.Prelude.Bytes.{to_list, of_list, to_list-of_list, of_list-to_list}
use pinch.Prelude.{
  ℕ, String, ◌≡◌, refl, ap, ◌∙◌, Option, none, some, List, [], ◌∷◌, ◌++◌, eqb, length, take, drop,
  take-append, drop-append, if◌then◌else◌,
}
use pinch.Wire.{Bytes}
use pinch.Manager.{Plaintext, Wrapper, Codecs}
use pinch.Tests.Texts.{map_code}

-- What `IsScalar` is of the three comparisons.
abbrev Above : Ordering → Ordering → Type 0
Above Ordering.lt o = IsLt o
Above Ordering.eq _ = ⊥
Above Ordering.gt _ = ⊥

abbrev Scalar : Ordering → Ordering → Ordering → Type 0
Scalar Ordering.lt _ _ = Unit
Scalar Ordering.eq o p = Above o p
Scalar Ordering.gt o p = Above o p

abbrev above : (o p : Ordering) → Option (Above o p)
above Ordering.lt Ordering.lt = some tt
above Ordering.lt _ = none
above _ _ = none

abbrev scalar : (o p q : Ordering) → Option (Scalar o p q)
scalar Ordering.lt p q = some tt
scalar Ordering.eq p q = above p q
scalar Ordering.gt p q = above p q

above-some : (o p : Ordering) (x : Above o p) → (y : Above o p) × (above o p ≡ some y)
above-some Ordering.lt Ordering.lt x = (tt, refl)
above-some Ordering.lt Ordering.eq x = absurd x
above-some Ordering.lt Ordering.gt x = absurd x
above-some Ordering.eq p x = absurd x
above-some Ordering.gt p x = absurd x

scalar-some : (o p q : Ordering) (x : Scalar o p q) → (y : Scalar o p q) × (scalar o p q ≡ some y)
scalar-some Ordering.lt p q x = (tt, refl)
scalar-some Ordering.eq p q x = above-some p q x
scalar-some Ordering.gt p q x = above-some p q x

module _ (n : ℕ) where
  abbrev of_scalar : Option (IsScalar n) → Char
  of_scalar none = nul
  of_scalar (some p) = char n p

  abbrev to_char : Char
  to_char = of_scalar (scalar (compare n 55296) (compare 57343 n) (compare n 1114112))

  to_char-code : (p : IsScalar n) → code to_char ≡ n
  to_char-code p =
      let (q, e) = scalar-some (compare n 55296) (compare 57343 n) (compare n 1114112) p in
      ap (λ o. code (of_scalar o)) e

abbrev map_char : Bytes → List Char
map_char [] = []
map_char (n ∷ b) = to_char n ∷ map_char b

map_char-code : (s : List Char) → map_char (map_code s) ≡ s
map_char-code [] = refl
map_char-code (char n p ∷ s) =
    rw (map_char-code s) (ap (λ c. c ∷ s) (Char-path (to_char n) (char n p) (to_char-code n p)))

-- A text in a list: each character after a comma, and a point at the end.
abbrev write_text : List Char → List Char → List Char
write_text [] rest = "." ∷ rest
write_text (c ∷ s) rest = "," ∷ c ∷ write_text s rest

abbrev read_text : List Char → List Char × List Char
read_text [] = ([], [])
read_text (m ∷ []) = ([], [])
read_text (m ∷ c ∷ s) =
    let (text, rest) = read_text s in if eqb (code m) b',' then (c ∷ text, rest) else ([], c ∷ s)

read-write_text :
    (s : List Char) (c : Char) (rest : List Char)
    → read_text (write_text s (c ∷ rest)) ≡ (s, c ∷ rest)
read-write_text [] c rest = refl
read-write_text (d ∷ s) c rest = ap (λ r. (d ∷ r.0, r.1)) (read-write_text s c rest)

abbrev write_field : Option String → List Char → List Char
write_field none rest = "-" ∷ rest
write_field (some s) rest = "+" ∷ write_text (to_list s) rest

abbrev read_present : Char → List Char × List Char → List Char → Option String × List Char
read_present m (text, rest) s = if eqb (code m) b'+' then (some (of_list text), rest) else (none, s)

abbrev read_field : List Char → Option String × List Char
read_field [] = (none, [])
read_field (m ∷ s) = read_present m (read_text s) s

read-write_field :
    (f : Option String) (c : Char) (rest : List Char)
    → read_field (write_field f (c ∷ rest)) ≡ (f, c ∷ rest)
read-write_field none c rest = refl
read-write_field (some s) c rest =
    ap (λ r. (some (of_list r.0), r.1)) (read-write_text (to_list s) c rest)
    ∙ ap (λ t. (some t, c ∷ rest)) (of_list-to_list s)

abbrev write_wrapper : Wrapper → List Char
write_wrapper w =
    write_field w.text
      (write_field w.attribution (write_field w.thread_id (write_field w.reply_to ("!" ∷ []))))

abbrev read_wrapper : List Char → Wrapper
read_wrapper s =
    let (a, s1) = read_field s in
    let (b, s2) = read_field s1 in
    let (c, s3) = read_field s2 in
    record { text = a; attribution = b; thread_id = c; reply_to = (read_field s3).0 }

field_starts :
    (f : Option String) (rest : List Char)
    → (c : Char) × (s : List Char) × (write_field f rest ≡ c ∷ s)
field_starts none rest = ("-", rest, refl)
field_starts (some s) rest = ("+", write_text (to_list s) rest, refl)

read_field-next :
    (f g : Option String) (rest : List Char)
    → read_field (write_field f (write_field g rest)) ≡ (f, write_field g rest)
read_field-next f g rest = let (c, s, e) = field_starts g rest in rw e (read-write_field f c s)

read-write_wrapper : (w : Wrapper) → read_wrapper (write_wrapper w) ≡ w
read-write_wrapper w =
    let end : List Char = "!" ∷ [] in
    let last : read_field (write_field w.reply_to end) ≡ (w.reply_to, end) =
      read-write_field w.reply_to "!" [] in
    rw
      (
        read_field-next w.text w.attribution (write_field w.thread_id (write_field w.reply_to end)),
        read_field-next w.attribution w.thread_id (write_field w.reply_to end),
        read_field-next w.thread_id w.reply_to end,
        last,
      )
      refl

abbrev read_plaintext : Bytes → Option Plaintext
read_plaintext (s ∷ t ∷ n ∷ b) = some (record {
  sequence = s;
  timestamp = t;
  content = take n b;
  content_type = of_list (map_char (drop n b));
})
read_plaintext _ = none

abbrev pub coded : Codecs
coded = record {
  encode_plaintext = λ p.
      p.sequence
      ∷ p.timestamp
      ∷ length p.content
      ∷ (p.content ++ map_code (to_list p.content_type));
  decode_plaintext = read_plaintext;
  encode_text = λ s. map_code (to_list s);
  decode_text = λ b. of_list (map_char b);
  stringify = λ w. of_list (write_wrapper w);
  parse_json = λ s. some (read_wrapper (to_list s));
  envelope_size = λ e. 200;
}

pub coded_text : (s : String) → coded.decode_text (coded.encode_text s) ≡ s
coded_text s = ap of_list (map_char-code (to_list s)) ∙ of_list-to_list s

pub coded_plaintext : (q : Plaintext) → coded.decode_plaintext (coded.encode_plaintext q) ≡ some q
coded_plaintext q =
    rw
      (
        take-append q.content (map_code (to_list q.content_type)),
        drop-append q.content (map_code (to_list q.content_type)),
        coded_text q.content_type,
      )
      refl

pub coded_wrapper : (w : Wrapper) → coded.parse_json (coded.stringify w) ≡ some w
coded_wrapper w =
    ap (λ s. some (read_wrapper s)) (to_list-of_list (write_wrapper w))
    ∙ ap some (read-write_wrapper w)
