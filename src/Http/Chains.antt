-- ===== src/Http/Chains.antt =====
-- `Chain` against the application of one middleware after the other.
use go_handbook_for_software.Base.{ℕ, zero, suc, ◌≡◌, refl, ap, ◌∙◌, List, [], ◌∷◌, length}
use go_handbook_for_software.Http.{Handler, mws_at, chain_loop, chain}

module _ {Q S : Type 0} where
  -- the first middleware is outermost
  abbrev pub wrap : List (Handler Q S → Handler Q S) → Handler Q S → Handler Q S
  wrap [] h = h
  wrap (m ∷ ms) h = m (wrap ms h)

  chain_loop-cons :
      (m : Handler Q S → Handler Q S) (ms : List (Handler Q S → Handler Q S)) (i : ℕ)
      (h : Handler Q S)
      → chain_loop (suc i) (m ∷ ms) h ≡ m (chain_loop i ms h)
  unfolding chain_loop
  chain_loop-cons m ms zero h = refl
  chain_loop-cons m ms (suc i) h = chain_loop-cons m ms i (mws_at ms i h)

  -- The loop of `Chain`, which runs from the last middleware to the first, builds the handler in
  -- which the first listed middleware is outermost and the last one next to the handler.
  pub chain_wraps :
      (h : Handler Q S) (ms : List (Handler Q S → Handler Q S)) → chain h ms ≡ wrap ms h
  unfolding chain chain_loop
  chain_wraps h [] = refl
  chain_wraps h (m ∷ ms) = chain_loop-cons m ms (length ms) h ∙ ap m (chain_wraps h ms)
