-- ===== src/Ring/Tests.antt =====
-- The theorems about the ring and the window at concrete inputs.
use go_handbook_for_software.Base.{ℕ, ◌≡◌, [], ◌∷◌, arith, has}
use go_handbook_for_software.Ring.{Ring, push, cap, new_recent_keys, seen_key, contains}
use go_handbook_for_software.Ring.Queue.{IsValid, contents, push_spec, push_refines}
use go_handbook_for_software.Ring.Window.{
  InStep, window_spec, new_recent_keys-InStep, seen_key_refines,
}

-- a full ring whose oldest element is in the second place
abbrev wrapped : Ring ℕ
wrapped = record { items = 7 ∷ 5 ∷ 6 ∷ []; head = 1; count = 3 }

wrapped-IsValid : IsValid wrapped
wrapped-IsValid = record { head_in = omega arith; count_in = omega arith }

push_refines_example :
    IsValid (push 0 wrapped 8).0
    × (cap (push 0 wrapped 8).0 ≡ 3)
    × ((contents 0 (push 0 wrapped 8).0, (push 0 wrapped 8).1) ≡ push_spec 3 (5 ∷ 6 ∷ 7 ∷ []) 8)
push_refines_example = push_refines 0 wrapped 8 wrapped-IsValid

seen_key_refines_example :
    let (r', answer) = seen_key (new_recent_keys 2) "k" in
    InStep r'
    × (contents "" r'.ring
        ≡ window_spec (cap (new_recent_keys 2).ring) (contents "" (new_recent_keys 2).ring) "k")
    × (answer ≡ has "k" (contents "" (new_recent_keys 2).ring))
    × (answer ≡ contains (new_recent_keys 2) "k")
seen_key_refines_example = seen_key_refines (new_recent_keys 2) "k" (new_recent_keys-InStep 2)
