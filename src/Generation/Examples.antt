-- ===== src/Generation/Examples.antt =====
-- A manager of internal/generation whose values are numbers: a lease before a swap and one after it.
use isutools.Prelude.{ℕ, ◌+◌, ◌≡◌, ◌<◌, ◌↔◌, refl, true, false, some, arith}
use isutools.Generation.{Manager, new_manager, acquire, finish, swap, freeze, wait, completes}
use isutools.Generation.Steps.{write, acquires, finishes, works, swaps, Reach, here, next}
use isutools.Generation.Invariant.{Sound, new_manager-Sound, Reach-Sound}
use isutools.Generation.Freezing.{freeze_stays, freeze-cut_short}

abbrev fresh : Manager ℕ
fresh = new_manager 0

-- A lease of the first generation, which is swapped out while the lease is used.
abbrev leased : Manager ℕ
leased = (acquire fresh).0

abbrev used : Manager ℕ
used = write leased 0 (λ n. n + 5)

abbrev swapped : Manager ℕ
swapped = (swap 0 used).0

abbrev settled : Manager ℕ
settled = finish swapped 0

-- A lease of the next generation, and its work.
abbrev leased_again : Manager ℕ
leased_again = (acquire settled).0

abbrev used_again : Manager ℕ
used_again = write leased_again 1 (λ n. n + 7)

to_swapped : Reach ℕ fresh swapped
unfolding acquire swap
to_swapped = next fresh leased swapped (acquires fresh) (
    next leased used swapped (works leased 0 (λ n. n + 5) (omega arith) refl)
      (next used swapped swapped (swaps used 0) (here swapped)))

to_settled : Reach ℕ swapped settled
unfolding acquire swap
to_settled = next swapped settled settled (finishes swapped 0 (omega arith)) (here settled)

to_used_again : Reach ℕ settled used_again
unfolding acquire swap finish
to_used_again = next settled leased_again used_again (acquires settled) (
    next leased_again used_again used_again (works leased_again 1 (λ n. n + 7) (omega arith) refl)
      (here used_again))

swapped-Sound : Sound swapped
swapped-Sound = Reach-Sound to_swapped (new_manager-Sound 0)

settled-Sound : Sound settled
settled-Sound = Reach-Sound to_settled swapped-Sound

Reach-Sound_example : Sound swapped
Reach-Sound_example = Reach-Sound to_swapped (new_manager-Sound 0)

freeze_stays_example :
    freeze (λ n. n + 1) used_again used_again 0 ≡ freeze (λ n. n + 1) settled settled 0
unfolding freeze acquire swap finish
freeze_stays_example =
    freeze_stays (λ n. n + 1) settled settled used_again used_again 0 settled-Sound (here settled)
      to_used_again (here used_again) (omega arith) refl

freeze-cut_short_example :
    (((freeze (λ n. n + 1) swapped settled 0).cut_short ≡ false) ↔ (
      (l : ℕ) → l < swapped.granted → (swapped.leases l).slot ≡ 0 → (swapped.leases l).done ≡ true))
    × ((wait swapped 0 (some true) ≡ completes) ↔ (
        (l : ℕ)
        → l < swapped.granted
        → (swapped.leases l).slot ≡ 0
        → (swapped.leases l).done ≡ true))
unfolding acquire swap
freeze-cut_short_example =
    freeze-cut_short (λ n. n + 1) swapped settled 0 (some true) swapped-Sound (omega arith)

used-Sound : Sound used
unfolding acquire
used-Sound =
    Reach-Sound
      (next fresh leased used (acquires fresh)
        (next leased used used (works leased 0 (λ n. n + 5) (omega arith) refl) (here used)))
      (new_manager-Sound 0)

-- In the wait the lease is done, and in the freeze nothing happens.
abbrev lease_done : Manager ℕ → Manager ℕ
lease_done m = finish m 0

abbrev nothing : Manager ℕ → Manager ℕ
nothing m = m
