-- ===== src/Linkcheck/Spans.antt =====
-- The stripping of inline code from a line.
use go_handbook_for_software.Base.{
  ℕ, zero, suc, ◌≤◌, ◌≡◌, ◌≢◌, refl, sym, ap, ap₂, ◌∙◌, [], ◌∷◌, ◌++◌, if◌then◌else◌, ◌==◌, All,
  arith, ℕ_discrete, eq_false, eq_true, length, take, drop, replicate, length-drop, append_assoc,
  append-nil,
}
use go_handbook_for_software.Linkcheck.{Bytes, ticks, Scan, at_run, at_byte, scan_loop, strip_line}

abbrev at : Bytes → Bytes → ℕ → Bytes → Scan
at seen rest open_run b = record { seen = seen; rest = rest; open_run = open_run; b = b }

scan_end :
    (f : ℕ) (seen : Bytes) (o : ℕ) (b : Bytes) → scan_loop f (at seen [] o b) ≡ at seen [] o b
unfolding scan_loop
scan_end zero seen o b = refl
scan_end (suc f) seen o b = refl

-- fuel for every byte that is left is enough
stable :
    (f f' : ℕ) (seen rest : Bytes) (o : ℕ) (b : Bytes)
    → length rest ≤ f
    → length rest ≤ f'
    → scan_loop f (at seen rest o b) ≡ scan_loop f' (at seen rest o b)
unfolding scan_loop at_run at_byte
stable f f' seen [] o b l l' = scan_end f seen o b ∙ sym (scan_end f' seen o b)
stable zero f' seen (c ∷ cs) o b l l' = absurd (omega arith)
stable (suc f) zero seen (c ∷ cs) o b l l' = absurd (omega arith)
stable (suc f) (suc f') seen (c ∷ cs) o b l l' = elim (ℕ_discrete c 96) [
  | no n ↦ rw (eq_false c 96 n) (
      stable f f' (seen ++ c ∷ []) cs o (if o == 0 then b ++ c ∷ [] else b) (omega arith)
        (omega arith))
  | yes e ↦
      let run = suc (ticks cs) in
      rw (eq_true c 96 e) (
        stable f f' (seen ++ take run (c ∷ cs)) (drop run (c ∷ cs))
          (if o == 0 then run else if run == o then 0 else o) (if o == 0 then seen else b)
          (omega (arith, length-drop run (c ∷ cs))) (omega (arith, length-drop run (c ∷ cs))))
]

-- the end of the scan
abbrev final : Bytes → Bytes → ℕ → Bytes → Scan
final seen rest o b = scan_loop (length rest) (at seen rest o b)

abbrev pub IsPlain : Bytes → Type 0
IsPlain = All (λ c. c ≢ 96)

-- a text that does not go on with a backquote
abbrev Ends : Bytes → Type 0
Ends [] = Unit
Ends (c ∷ cs) = c ≢ 96

abbrev pub run_of : ℕ → Bytes
run_of n = replicate n 96

ticks-run_of : (n : ℕ) (r : Bytes) → Ends r → ticks (run_of n ++ r) ≡ n
ticks-run_of zero [] e = refl
ticks-run_of zero (c ∷ cs) e = rw (eq_false c 96 e) refl
ticks-run_of (suc n) r e = ap suc (ticks-run_of n r e)

take-run_of : (n : ℕ) (r : Bytes) → take n (run_of n ++ r) ≡ run_of n
take-run_of zero r = refl
take-run_of (suc n) r = ap (◌∷◌ 96) (take-run_of n r)

drop-run_of : (n : ℕ) (r : Bytes) → drop n (run_of n ++ r) ≡ r
drop-run_of zero r = refl
drop-run_of (suc n) r = drop-run_of n r

-- a run of backquotes
final-run :
    (n : ℕ) (seen r : Bytes) (o : ℕ) (b : Bytes)
    → Ends r
    → final seen (run_of (suc n) ++ r) o b
      ≡ final
          (seen ++ run_of (suc n))
          r
          (if o == 0 then suc n else if suc n == o then 0 else o)
          (if o == 0 then seen else b)
unfolding scan_loop at_run
final-run n seen r o b e =
    let cs = run_of n ++ r in
    let run = suc (ticks cs) in
    let same : run ≡ suc n = ap suc (ticks-run_of n r e) in
    let next : ℕ → Bytes → Bytes → Scan = λ k t d.
      final (seen ++ t) d (if o == 0 then k else if k == o then 0 else o)
        (if o == 0 then seen else b) in
    stable (length cs) (length (drop run (96 ∷ cs))) (seen ++ take run (96 ∷ cs))
      (drop run (96 ∷ cs)) (if o == 0 then run else if run == o then 0 else o)
      (if o == 0 then seen else b) (omega (arith, length-drop run (96 ∷ cs))) (omega arith)
    ∙ (ap (λ k. next k (take k (96 ∷ cs)) (drop k (96 ∷ cs))) same
        ∙ ap₂ (next (suc n)) (take-run_of (suc n) r) (drop-run_of (suc n) r))

-- plain text outside a span
final-plain :
    (p seen r b : Bytes) → IsPlain p → final seen (p ++ r) 0 b ≡ final (seen ++ p) r 0 (b ++ p)
unfolding scan_loop at_byte
final-plain [] seen r b h = ap₂ (λ x y. final x r 0 y) (sym (append-nil seen)) (sym (append-nil b))
final-plain (c ∷ cs) seen r b h = rw (eq_false c 96 h.0) (
    final-plain cs (seen ++ c ∷ []) r (b ++ c ∷ []) h.1
    ∙ ap₂ (λ x y. final x r 0 y) (append_assoc seen (c ∷ []) cs) (append_assoc b (c ∷ []) cs))

-- plain text inside a span
final-code :
    (p seen r : Bytes) (n : ℕ) (b : Bytes)
    → IsPlain p
    → final seen (p ++ r) (suc n) b ≡ final (seen ++ p) r (suc n) b
unfolding scan_loop at_byte
final-code [] seen r n b h = ap (λ x. final x r (suc n) b) (sym (append-nil seen))
final-code (c ∷ cs) seen r n b h =
    rw (eq_false c 96 h.0, eq_false (suc n) 0 (omega arith))
      (final-code cs (seen ++ c ∷ []) r n b h.1
        ∙ ap (λ x. final x r (suc n) b) (append_assoc seen (c ∷ []) cs))

abbrev pub IsCode : Bytes → Type 0
IsCode [] = ⊥
IsCode (c ∷ cs) = IsPlain (c ∷ cs)

Ends-code : (x r : Bytes) → IsCode x → Ends (x ++ r)
Ends-code [] r h = absurd h
Ends-code (c ∷ cs) r h = h.0

IsPlain-code : (x : Bytes) → IsCode x → IsPlain x
IsPlain-code [] h = tt
IsPlain-code (c ∷ cs) h = h

Ends-plain : (p : Bytes) → IsPlain p → Ends p
Ends-plain [] h = tt
Ends-plain (c ∷ cs) h = h.0

Ends-plain-run : (p r : Bytes) → IsPlain p → Ends r → Ends (p ++ r)
Ends-plain-run [] r h e = e
Ends-plain-run (c ∷ cs) r h e = h.0

-- a whole span: the text kept so far becomes what stands before the span, as it is in the line
final-span :
    (n : ℕ) (x seen r b : Bytes)
    → IsCode x
    → Ends r
    → final seen (run_of (suc n) ++ (x ++ (run_of (suc n) ++ r))) 0 b
      ≡ final (((seen ++ run_of (suc n)) ++ x) ++ run_of (suc n)) r 0 seen
final-span n x seen r b code e =
    let t = run_of (suc n) in
    let closing : final ((seen ++ t) ++ x) (t ++ r) (suc n) seen
        ≡ final (((seen ++ t) ++ x) ++ t) r 0 seen =
      final-run n ((seen ++ t) ++ x) r (suc n) seen e
      ∙ rw (eq_false (suc n) 0 (omega arith), eq_true (suc n) (suc n) refl) refl in
    final-run n seen (x ++ (t ++ r)) 0 b (Ends-code x (t ++ r) code)
    ∙ (final-code x (seen ++ t) (t ++ r) n seen (IsPlain-code x code) ∙ closing)

-- the line with a span in it
abbrev pub spanned : ℕ → Bytes → Bytes → Bytes
spanned n x r = run_of (suc n) ++ (x ++ (run_of (suc n) ++ r))

kept : Scan → Bytes × ℕ
kept s = (s.b, s.open_run)

-- A line with one span, of code without a backquote between two runs of as many: the span and its
-- runs are taken out, what stands before and after it stays, and no span is open at the end.
pub span_stripped :
    (n : ℕ) (a x c : Bytes)
    → IsPlain a
    → IsCode x
    → IsPlain c
    → strip_line (a ++ spanned n x c) 0 ≡ (a ++ c, 0)
unfolding strip_line kept scan_loop
span_stripped n a x c pa code pc =
    let t = run_of (suc n) in
    let seen = ((a ++ t) ++ x) ++ t in
    let last : final seen c 0 a ≡ at (seen ++ c) [] 0 (a ++ c) =
      ap (λ u. final seen u 0 a) (sym (append-nil c)) ∙ final-plain c seen [] a pc in
    ap kept (
      final-plain a [] (spanned n x c) [] pa ∙ (final-span n x a c a code (Ends-plain c pc) ∙ last))

-- A line with two spans and text between them: the second one is taken out, but the first one comes back with its
-- backquotes.
pub second_span-restores :
    (n m : ℕ) (a x c y d : Bytes)
    → IsPlain a
    → IsCode x
    → IsCode c
    → IsCode y
    → IsPlain d
    → strip_line (a ++ spanned n x (c ++ spanned m y d)) 0 ≡ ((a ++ spanned n x c) ++ d, 0)
unfolding strip_line kept scan_loop
second_span-restores n m a x c y d pa codex codec codey pd =
    let t = run_of (suc n) in
    let t' = run_of (suc m) in
    let s1 = ((a ++ t) ++ x) ++ t in
    let s2 = (((s1 ++ c) ++ t') ++ y) ++ t' in
    let raw : s1 ++ c ≡ a ++ spanned n x c =
      append_assoc ((a ++ t) ++ x) t c
      ∙ (append_assoc (a ++ t) x (t ++ c) ∙ append_assoc a t (x ++ (t ++ c))) in
    let last : final s2 d 0 (s1 ++ c) ≡ at (s2 ++ d) [] 0 ((s1 ++ c) ++ d) =
      ap (λ u. final s2 u 0 (s1 ++ c)) (sym (append-nil d)) ∙ final-plain d s2 [] (s1 ++ c) pd in
    ap kept (
      final-plain a [] (spanned n x (c ++ spanned m y d)) [] pa
      ∙ (final-span n x a (c ++ spanned m y d) a codex (Ends-code c (spanned m y d) codec)
          ∙ (final-plain c s1 (spanned m y d) a (IsPlain-code c codec)
              ∙ (final-span m y (s1 ++ c) d (a ++ c) codey (Ends-plain d pd) ∙ last))))
    ∙ ap (λ u. (u ++ d, 0)) raw
