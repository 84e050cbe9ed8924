-- ===== src/ProtoHelp/Flag.antt =====
-- asio/internal/ProtoHelp.cpp, `gotoFlag`: how a reader finds the next package in its bytes.
use asio.Prelude.{
  ℕ, zero, suc, ◌<◌, ◌≡◌, refl, sym, ap, ◌∙◌, Bool, true, false, [], ◌∷◌, ◌++◌, inl, inr, arith,
  length, take, drop, Bytes, bytes_beq, Bool-cases, ltb, if◌then◌else◌, Exec, ok, All, ◌≢◌,
  length-append, lt→ltb,
}
use asio.Package.{flag0, flag1, package_header_size}
use asio.Buffer.{Buffer, content, readable_bytes, peek, copy_from, retrieve}
use asio.Buffer.View.{IsValid, length-content, copy_from-peek, retrieve-IsValid, content-retrieve}
use asio.ProtoHelp.{goto_flag_loop, goto_flag}

-- Whether the bytes begin with the two flag characters.
abbrev pub at_flag : Bytes → Bool
at_flag q = bytes_beq (take 2 q) (flag0 ∷ flag1 ∷ [])

-- The search on a queue of bytes: it stops at a flag with more than a header behind it, or with a
-- header's length or less left.
unfoldable pub scan : Bytes → Bool × Bytes
scan [] = (false, [])
scan (x ∷ xs) =
    if ltb package_header_size (length (x ∷ xs))
    then if at_flag (x ∷ xs) then (true, x ∷ xs) else scan xs
    else (false, x ∷ xs)

abbrev pub Finds : Exec (Bool × Buffer) → Bool × Bytes → Type 0
Finds r spec = (b : Buffer) × (r ≡ ok (spec.0, b)) × IsValid b × (content b ≡ spec.1)

goto_flag_loop-Finds :
    (fuel : ℕ) (q : Bytes) (b : Buffer)
    → IsValid b
    → content b ≡ q
    → length q < fuel
    → Finds (goto_flag_loop fuel b) (scan q)
unfolding goto_flag_loop scan
goto_flag_loop-Finds zero q b v e h = absurd (omega arith)
goto_flag_loop-Finds (suc fuel) [] b v e h =
    let size : readable_bytes b ≡ 0 = sym (length-content b v) ∙ ap length e in
    (b, rw size refl, v, e)
goto_flag_loop-Finds (suc fuel) (x ∷ xs) b v e h =
    let size : readable_bytes b ≡ length (x ∷ xs) = sym (length-content b v) ∙ ap length e in
    let again : Finds (goto_flag_loop fuel (retrieve 1 b)) (scan xs) =
      goto_flag_loop-Finds fuel xs (retrieve 1 b) (retrieve-IsValid 1 b v)
        (content-retrieve 1 b v ∙ ap (drop 1) e) (omega arith) in
    elim (Bool-cases (ltb package_header_size (length (x ∷ xs)))) [
      | inr e1 ↦ rw (size, e1) (b, refl, v, e)
      | inl e1 ↦
          let seen : copy_from 2 (peek b) ≡ ok (take 2 (x ∷ xs)) =
            copy_from-peek 2 b v (ground (arith, size)) ∙ ap (λ (t : Bytes). ok (take 2 t)) e in
          elim (Bool-cases (at_flag (x ∷ xs))) [
            | inl e2 ↦ rw (size, e1, seen, e2) (b, refl, v, e)
            | inr e2 ↦ rw (size, e1, seen, e2) again
          ]
    ]

-- `gotoFlag` ends on every valid buffer, and does to the bytes in it what `scan` does.
pub goto_flag-Finds :
    (b : Buffer) (q : Bytes) → IsValid b → content b ≡ q → Finds (goto_flag b) (scan q)
unfolding goto_flag
goto_flag-Finds b q v e =
    goto_flag_loop-Finds (suc (readable_bytes b)) q b v e
      (omega (arith, length-content b v, ap length e))

-- At a flag with enough behind it the search stops at once.
pub scan-at_flag :
    (q : Bytes) → at_flag q ≡ true → package_header_size < length q → scan q ≡ (true, q)
unfolding scan
scan-at_flag [] a h = absurd (omega arith)
scan-at_flag (x ∷ xs) a h = ground arith

no_flag_at : (x : ℕ) (xs : Bytes) → x ≢ flag0 → at_flag (x ∷ xs) ≡ false
unfolding bytes_beq
no_flag_at x [] n = ground arith
no_flag_at x (y ∷ ys) n = ground arith

-- Bytes that hold no '`' are skipped.
pub scan_skips :
    (g q : Bytes)
    → All (λ x. x ≢ flag0) g
    → at_flag q ≡ true
    → package_header_size < length q
    → scan (g ++ q) ≡ (true, q)
unfolding scan
scan_skips [] q n a h = scan-at_flag q a h
scan_skips (x ∷ g) q n a h =
    let long : 20 < suc (length (g ++ q)) = omega (arith, length-append g q) in
    let no_flag : at_flag (x ∷ (g ++ q)) ≡ false = no_flag_at x (g ++ q) n.0 in
    rw (lt→ltb _ _ long, no_flag) (scan_skips g q n.1 a h)
