-- ===== src/Service/Live.antt =====
-- The list of live handles of src/persistence.cpp: addresses below the next one and all different,
-- and no handle awaiting authority.
use qiven_context_draft.Prelude.{
  ℕ, ◌+◌, ◌<◌, ◌≡◌, ◌≢◌, inl, inr, refl, sym, subst, Bool-cases, List, [], ◌∷◌, ◌++◌, none, some,
  ◌==◌, nat_eq, arith, All, beq_refl, beq_of_ne,
}
use qiven_context_draft.Service.State.{QuarantineState, Handle, find_live, replace_live}
use qiven_context_draft.Service.Lifetime.{remove_live}

abbrev pub IsBelow : ℕ → Handle → Type 0
IsBelow n h = h.address < n

abbrev pub IsSettled : Handle → Type 0
IsSettled h = h.body.quarantine ≢ QuarantineState.authority_pending

abbrev pub AreApart : List Handle → Type 0
AreApart [] = Unit
AreApart (h ∷ hs) = All (λ k. h.address ≢ k.address) hs × AreApart hs

pub record AreSound (live : List Handle) (next : ℕ) : Type 0 where
  pub below : All (IsBelow next) live
  pub apart : AreApart live
  pub settled : All IsSettled live

module _ (P : Handle → Type 0) where
  All-append : (hs : List Handle) (h : Handle) → All P hs → P h → All P (hs ++ h ∷ [])
  All-append [] h a p = (p, tt)
  All-append (k ∷ hs) h a p = (a.0, All-append hs h a.1 p)

  pub All-replace_live :
      (hs : List Handle) (a : ℕ) (h : Handle) → All P hs → P h → All P (replace_live hs a h)
  unfolding replace_live
  All-replace_live [] a h q p = tt
  All-replace_live (k ∷ hs) a h q p = elim (Bool-cases (k.address == a)) [
    | inl same ↦ rw same (p, q.1)
    | inr other ↦ rw other (q.0, All-replace_live hs a h q.1 p)
  ]

  All-remove_live : (hs : List Handle) (a : ℕ) → All P hs → All P (remove_live hs a)
  unfolding remove_live
  All-remove_live [] a q = tt
  All-remove_live (k ∷ hs) a q = elim (Bool-cases (k.address == a)) [
    | inl same ↦ rw same q.1
    | inr other ↦ rw other (q.0, All-remove_live hs a q.1)
  ]

All-map :
    (P Q : Handle → Type 0) (hs : List Handle) → ((h : Handle) → P h → Q h) → All P hs → All Q hs
All-map P Q [] f a = tt
All-map P Q (h ∷ hs) f a = (f h a.0, All-map P Q hs f a.1)

apart_from : (n : ℕ) (hs : List Handle) → All (IsBelow n) hs → All (λ k. n ≢ k.address) hs
apart_from n hs a = All-map (IsBelow n) (λ k. n ≢ k.address) hs (λ h b e. omega (arith, b, e)) a

AreApart-append :
    (hs : List Handle) (h : Handle)
    → All (IsBelow h.address) hs
    → AreApart hs
    → AreApart (hs ++ h ∷ [])
AreApart-append [] h b a = (tt, tt)
AreApart-append (k ∷ hs) h b a =
    (All-append _ hs h a.0 (λ e. omega (arith, b.0, e)), AreApart-append hs h b.1 a.1)

AreApart-replace_live :
    (hs : List Handle) (a : ℕ) (h : Handle)
    → All (IsBelow h.address) hs
    → AreApart hs
    → AreApart (replace_live hs a h)
unfolding replace_live
AreApart-replace_live [] a h b q = tt
AreApart-replace_live (k ∷ hs) a h b q = elim (Bool-cases (k.address == a)) [
  | inl same ↦ rw same (apart_from h.address hs b.1, q.1)
  | inr other ↦ rw other (
    All-replace_live _ hs a h q.0 (λ e. omega (arith, b.0, e)),
    AreApart-replace_live hs a h b.1 q.1,
  )
]

AreApart-remove_live : (hs : List Handle) (a : ℕ) → AreApart hs → AreApart (remove_live hs a)
unfolding remove_live
AreApart-remove_live [] a q = tt
AreApart-remove_live (k ∷ hs) a q = elim (Bool-cases (k.address == a)) [
  | inl same ↦ rw same q.1
  | inr other ↦ rw other (All-remove_live _ hs a q.0, AreApart-remove_live hs a q.1)
]

IsBelow-later : (n : ℕ) (hs : List Handle) → All (IsBelow n) hs → All (IsBelow (n + 1)) hs
IsBelow-later n hs a = All-map (IsBelow n) (IsBelow (n + 1)) hs (λ h b. omega (arith, b)) a

-- How an operation changes the live handles: not, or by one handle under a fresh address, or by
-- taking one away.
pub data Change (live : List Handle) (next : ℕ) : List Handle → ℕ → Type 0 where
  unchanged : Change live next live next
  minted :
      (h : Handle) → h.address ≡ next → IsSettled h → Change live next (live ++ h ∷ []) (next + 1)
  replaced :
      (a : ℕ) (h : Handle)
      → h.address ≡ next
      → IsSettled h
      → Change live next (replace_live live a h) (next + 1)
  removed : (a : ℕ) → Change live next (remove_live live a) next

pub Change-AreSound :
    (live live' : List Handle) (next next' : ℕ)
    → Change live next live' next'
    → AreSound live next
    → AreSound live' next'
Change-AreSound live _ next _ unchanged s = s
Change-AreSound live _ next _ (minted h e q) s = record {
  below = All-append _ live h (IsBelow-later next live s.below) (omega arith);
  apart = AreApart-append live h (subst (λ n. All (IsBelow n) live) (sym e) s.below) s.apart;
  settled = All-append _ live h s.settled q;
}
Change-AreSound live _ next _ (replaced a h e q) s = record {
  below = All-replace_live _ live a h (IsBelow-later next live s.below) (omega arith);
  apart =
      AreApart-replace_live live a h (subst (λ n. All (IsBelow n) live) (sym e) s.below) s.apart;
  settled = All-replace_live _ live a h s.settled q;
}
Change-AreSound live _ next _ (removed a) s = record {
  below = All-remove_live _ live a s.below;
  apart = AreApart-remove_live live a s.apart;
  settled = All-remove_live _ live a s.settled;
}

pub find_live-All :
    (P : Handle → Type 0) (hs : List Handle) (a : ℕ) (h : Handle)
    → All P hs
    → find_live hs a ≡ some h
    → P h
unfolding find_live
find_live-All P [] a h q e = absurd (cc)
find_live-All P (k ∷ hs) a h q e = elim (Bool-cases (k.address == a)) [
  | inl same ↦ subst P (ground (arith, same, e)) q.0
  | inr other ↦ find_live-All P hs a h q.1 (ground (arith, other, e))
]

absent : (hs : List Handle) (a : ℕ) → All (λ k. a ≢ k.address) hs → find_live hs a ≡ none
unfolding find_live
absent [] a q = refl
absent (k ∷ hs) a q = rw (beq_of_ne k.address a (λ e. q.0 (sym e))) (absent hs a q.1)

-- A handle that was put under a fresh address in the place of a live one is found there.
pub find_live-replace_new :
    (hs : List Handle) (a : ℕ) (h k : Handle)
    → All (IsBelow h.address) hs
    → find_live hs a ≡ some k
    → find_live (replace_live hs a h) h.address ≡ some h
unfolding find_live replace_live
find_live-replace_new [] a h k b e = absurd (cc)
find_live-replace_new (x ∷ hs) a h k b e = elim (Bool-cases (x.address == a)) [
  | inl same ↦ rw (same, beq_refl h.address)
  | inr other ↦
      rw (other, beq_of_ne x.address h.address (λ q. omega (arith, b.0, q)))
        (find_live-replace_new hs a h k b.1 (ground (arith, other, e)))
]

-- The handle that it replaced is not live any more.
pub find_live-replace_old :
    (hs : List Handle) (a : ℕ) (h : Handle)
    → AreApart hs
    → a ≢ h.address
    → find_live (replace_live hs a h) a ≡ none
unfolding find_live replace_live
find_live-replace_old [] a h q n = refl
find_live-replace_old (x ∷ hs) a h q n = elim (Bool-cases (x.address == a)) [
  | inl same ↦
      rw (same, beq_of_ne h.address a (λ e. n (sym e)))
        (absent hs a (subst (λ b. All (λ k. b ≢ k.address) hs) (ground (arith, same)) q.0))
  | inr other ↦ rw (other, other) (find_live-replace_old hs a h q.1 n)
]
