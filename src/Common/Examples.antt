-- ===== src/Common/Examples.antt =====
-- The theorems on the string helpers at concrete buffers.
use user_level_checkpoint_re.Base.{◌≡◌, refl, some, none, [], ◌∷◌, ◌++◌, codes, done, failed, arith}
use user_level_checkpoint_re.Common.{copy_string, path_join}
use user_level_checkpoint_re.Common.Buffers.{Copies, copy_join-Stores}

copy_join-Stores_example :
    Copies (codes "slot_A") [] (λ size. copy_string (some []) size (some (codes "slot_A")))
    × Copies
        (codes "slot_A" ++ b'/' ∷ codes "pid")
        []
        (λ size. path_join (some []) size (some (codes "slot_A")) (some (codes "pid")))
copy_join-Stores_example = copy_join-Stores [] (codes "slot_A") (codes "pid") (omega arith)

-- Tests on each branch.
cut_at_the_end :
    (copy_string (some []) 8 (some (codes "slot_A")) ≡ (some (codes "slot_A"), done))
    × (copy_string (some []) 4 (some (codes "slot_A")) ≡ (some (codes "slo"), failed))
    × (copy_string none 4 (some []) ≡ (none, failed))
    × (path_join (some []) 10 (some (codes "a")) (some (codes "b")) ≡ (some (codes "a/b"), done))
unfolding copy_string path_join
cut_at_the_end = (refl, refl, refl, refl)
