-- ===== src/Strutil/Affixes.antt =====
-- asio/tool/strutil.cpp: prefixes and suffixes.
use asio.Prelude.{
  ◌-◌, ◌≡◌, refl, sym, ap, ◌∙◌, Bool, true, false, ◌&&◌, [], ◌++◌, Bytes, bytes_beq, bytes_beq_iff,
  length, leb, if◌then◌else◌, take, drop, arith, length-append, Bool-cases, inl, inr, ◌↔◌,
  take-append-drop, take-append_self, drop-append_self, length-take,
}
use asio.Strutil.{has_prefix_string, try_strip_prefix_string, has_suffix_string}

-- A string with a prefix in front, and the string behind it.
has_prefix-front : (p t : Bytes) → has_prefix_string (p ++ t) p ≡ true
unfolding has_prefix_string
has_prefix-front p t =
    let same = (bytes_beq_iff (take (length p) (p ++ t)) p).1 (take-append_self p t) in
    ground (arith, length-append p t, same)

pub has_prefix-splits : (s p : Bytes) → has_prefix_string s p ≡ true → s ≡ p ++ drop (length p) s
unfolding has_prefix_string
has_prefix-splits s p h =
    let same : bytes_beq (take (length p) s) p ≡ true = ground (arith, h) in
    sym (take-append-drop (length p) s)
    ∙ ap (λ x. x ++ drop (length p) s) ((bytes_beq_iff (take (length p) s) p).0 same)

and_false : (b : Bool) → false ≡ (b && false)
and_false true = refl
and_false false = refl

-- `TryStripPrefixString` takes a prefix off, and leaves a string that does not begin with it.
pub try_strip_prefix_string-has_prefix_string :
    (s p : Bytes)
    → let r = try_strip_prefix_string s p in
      (r.0 ≡ has_prefix_string s p) × (s ≡ (if r.0 then p else []) ++ r.1)
unfolding try_strip_prefix_string has_prefix_string
try_strip_prefix_string-has_prefix_string s p =
    elim (Bool-cases (bytes_beq (take (length p) s) p)) [
      | inl e ↦
          let same = (bytes_beq_iff (take (length p) s) p).0 e in
          let fits : leb (length p) (length s) ≡ true =
            ground (arith, ap length same, length-take (length p) s) in
          rw (e, fits)
            (refl, sym (take-append-drop (length p) s) ∙ ap (λ x. x ++ drop (length p) s) same)
      | inr e ↦ rw e (and_false (leb (length p) (length s)), refl)
    ]

-- `HasSuffixString` is true exactly for the strings that end in the suffix.
pub has_suffix_string-append :
    (s t : Bytes) → (has_suffix_string s t ≡ true) ↔ ((a : Bytes) × (s ≡ a ++ t))
unfolding has_suffix_string
has_suffix_string-append s t = (
  λ h.
      let n = length s - length t in
      let same : bytes_beq (drop n s) t ≡ true = ground (arith, h) in
      (
        take n s,
        sym (take-append-drop n s) ∙ ap (λ x. take n s ++ x) ((bytes_beq_iff (drop n s) t).0 same),
      ),
  λ (a, e).
      let n : length s - length t ≡ length a = omega (arith, ap length e, length-append a t) in
      let d : drop (length s - length t) s ≡ t =
        ap (λ k. drop k s) n ∙ ap (drop (length a)) e ∙ drop-append_self a t in
      ground (
        arith,
        ap length e,
        length-append a t,
        (bytes_beq_iff (drop (length s - length t) s) t).1 d,
      ),
)
