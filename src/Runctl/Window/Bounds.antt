-- ===== src/Runctl/Window/Bounds.antt =====
-- computeWindow: the window is the range of the boundaries that it counts.
use isutools.Prelude.{
  ℕ, ◌≤◌, ap, ◌≡◌, refl, ◌⊎◌, inl, inr, true, false, List, [], ◌∷◌, arith, All, Any, All-Any,
  Bool-cases,
}
use isutools.Runctl.Types.{CollectorBoundary, sub_time}
use isutools.Runctl.Window.{Keep, counted, Scan, widen, scan, no_scan, compute_window}

-- A boundary that is counted lies between the two ends.
abbrev pub Covers : Keep → ℕ → ℕ → CollectorBoundary → Type 0
Covers keep lo hi b = counted keep b ≡ true → (lo ≤ b.at) × (b.at ≤ hi)

-- What a scan has done so far only widens.
record Widens (w v : Scan) : Type 0 where
  still_seen : w.seen ≡ true → v.seen ≡ true
  lower : w.seen ≡ true → v.min_at ≤ w.min_at
  upper : w.seen ≡ true → w.max_at ≤ v.max_at

Widens-trans : (u v w : Scan) → Widens u v → Widens v w → Widens u w
Widens-trans u v w h k = ground arith

widen-Widens : (keep : Keep) (w : Scan) (b : CollectorBoundary) → Widens w (widen keep w b)
widen-Widens keep w b = ground arith

scan-Widens : (keep : Keep) (w : Scan) (bs : List CollectorBoundary) → Widens w (scan keep w bs)
unfolding scan
scan-Widens keep w [] = ground arith
scan-Widens keep w (b ∷ bs) =
    Widens-trans w (widen keep w b) (scan keep (widen keep w b) bs) (widen-Widens keep w b)
      (scan-Widens keep (widen keep w b) bs)

scan-Covers :
    (keep : Keep) (w : Scan) (bs : List CollectorBoundary)
    → All (Covers keep (scan keep w bs).min_at (scan keep w bs).max_at) bs
unfolding scan
scan-Covers keep w [] = tt
scan-Covers keep w (b ∷ bs) =
    (ground (arith, scan-Widens keep (widen keep w b) bs), scan-Covers keep (widen keep w b) bs)

-- The counted boundary that gave one end of the scan.
AttainsMin : Keep → Scan → CollectorBoundary → Type 0
AttainsMin keep w b = (counted keep b ≡ true) × (b.at ≡ w.min_at)

AttainsMax : Keep → Scan → CollectorBoundary → Type 0
AttainsMax keep w b = (counted keep b ≡ true) × (b.at ≡ w.max_at)

scan-min_attained :
    (keep : Keep) (w : Scan) (bs : List CollectorBoundary)
    → (scan keep w bs).seen ≡ true
    → ((w.seen ≡ true) × ((scan keep w bs).min_at ≡ w.min_at))
      ⊎ Any (AttainsMin keep (scan keep w bs)) bs
unfolding scan AttainsMin
scan-min_attained keep w [] h = inl (h, refl)
scan-min_attained keep w (b ∷ bs) h = elim (scan-min_attained keep (widen keep w b) bs h) [
  | inl p ↦ ground arith
  | inr q ↦ inr (inr q)
]

scan-max_attained :
    (keep : Keep) (w : Scan) (bs : List CollectorBoundary)
    → (scan keep w bs).seen ≡ true
    → ((w.seen ≡ true) × ((scan keep w bs).max_at ≡ w.max_at))
      ⊎ Any (AttainsMax keep (scan keep w bs)) bs
unfolding scan AttainsMax
scan-max_attained keep w [] h = inl (h, refl)
scan-max_attained keep w (b ∷ bs) h = elim (scan-max_attained keep (widen keep w b) bs h) [
  | inl p ↦ ground arith
  | inr q ↦ inr (inr q)
]

scan_unseen :
    (keep : Keep) (w : Scan) (bs : List CollectorBoundary)
    → (scan keep w bs).seen ≡ false
    → (scan keep w bs ≡ w) × All (λ b. counted keep b ≡ false) bs
unfolding scan
scan_unseen keep w [] h = (refl, tt)
scan_unseen keep w (b ∷ bs) h =
    let ih = scan_unseen keep (widen keep w b) bs h in
    (ground (arith, ih.0), (ground (arith, ih.0), ih.1))

abbrev pub AtMin : Keep → List CollectorBoundary → CollectorBoundary → Type 0
AtMin keep bs b = (counted keep b ≡ true) × (b.at ≡ (compute_window bs keep).min_at)

abbrev pub AtMax : Keep → List CollectorBoundary → CollectorBoundary → Type 0
AtMax keep bs b = (counted keep b ≡ true) × (b.at ≡ (compute_window bs keep).max_at)

-- Either no boundary is counted, and the window is the zero window; or both of its ends are times
-- of counted boundaries, and the spread is the distance of the ends.
pub window_attained :
    (bs : List CollectorBoundary) (keep : Keep)
    → (All (λ b. counted keep b ≡ false) bs
        × (compute_window bs keep ≡ record { min_at = 0; max_at = 0; spread = 0 }))
      ⊎ (Any (AtMin keep bs) bs
          × Any (AtMax keep bs) bs
          × ((compute_window bs keep).spread
              ≡ sub_time (compute_window bs keep).max_at (compute_window bs keep).min_at))
unfolding compute_window AttainsMin AttainsMax
window_attained bs keep = elim (Bool-cases (scan keep no_scan bs).seen) [
  | inl e ↦ elim (scan-min_attained keep no_scan bs e) [
    | inl p ↦ absurd (cc)
    | inr lo ↦ elim (scan-max_attained keep no_scan bs e) [
      | inl p ↦ absurd (cc)
      | inr hi ↦ inr (lo, hi, rw e)
    ]
  ]
  | inr e ↦
      inl ((scan_unseen keep no_scan bs e).1, ground (arith, (scan_unseen keep no_scan bs e).0))
]

-- Every counted boundary lies between the two ends of the window.
pub window-Covers :
    (bs : List CollectorBoundary) (keep : Keep)
    → All (Covers keep (compute_window bs keep).min_at (compute_window bs keep).max_at) bs
unfolding compute_window
window-Covers bs keep = scan-Covers keep no_scan bs

-- A filter that lets less through has no wider window.
pub spread_mono :
    (bs : List CollectorBoundary) (p q : Keep)
    → ((b : CollectorBoundary) → counted p b ≡ true → counted q b ≡ true)
    → (compute_window bs p).spread ≤ (compute_window bs q).spread
spread_mono bs p q h = elim (window_attained bs p) [
  | inl (_, e) ↦ rw e (omega arith)
  | inr (lo, hi, e) ↦
      let (a, ca, la) = All-Any (Covers q _ _) (AtMin p bs) bs (window-Covers bs q) lo in
      let (b, cb, lb) = All-Any (Covers q _ _) (AtMax p bs) bs (window-Covers bs q) hi in
      elim (window_attained bs q) [
        | inl (_, z) ↦ omega (
          arith,
          e,
          ca (h a la.0),
          cb (h b lb.0),
          la.1,
          lb.1,
          ap (λ w. w.spread) z,
          ap (λ w. w.max_at) z,
        )
        | inr (_, _, f) ↦ omega (arith, e, f, ca (h a la.0), cb (h b lb.0), la.1, lb.1)
      ]
]
