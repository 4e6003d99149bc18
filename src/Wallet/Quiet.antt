-- ===== src/Wallet/Quiet.antt =====
-- What a computation of `sendTransaction` (client_app/src/context/walletContext.tsx) adds to the requests
-- to sign: nothing, or one request.
use spectra_portal.Base.{
  ℕ, ◌==◌, ◌≡◌, ◌⊎◌, inl, inr, refl, ap, ◌∙◌, String, List, [], ◌∷◌, ◌++◌, Option, none, some,
  Bool-cases,
}
use spectra_portal.Wallet.Send.{
  Signing, Answer, answered, failed, SignRequest, WalletWorld, M, continue_with, ◌>>=◌, call,
  request, or_throw, estimated,
}

module _ (s : Signing) where
  -- Nothing is asked to be signed.
  abbrev pub IsQuiet : {A : Type 0} → M s A → Type 0
  IsQuiet m = (w : WalletWorld s) → (m w).1.requests ≡ w.requests

  pub IsQuiet-call : {A : Type 0} (f : s.Net → Answer A × s.Net) → IsQuiet (call s f)
  unfolding call
  IsQuiet-call f w = refl

  pub IsQuiet-or_throw : {A : Type 0} (o : Option A) (e : String) → IsQuiet (or_throw s o e)
  unfolding or_throw
  IsQuiet-or_throw none e w = refl
  IsQuiet-or_throw (some a) e w = refl

  pub IsQuiet-estimated : (simulated : Option ℕ) → IsQuiet (estimated s simulated)
  unfolding estimated
  IsQuiet-estimated none w = refl
  IsQuiet-estimated (some gas) w = elim (Bool-cases (gas == 0)) [
    | inl e ↦ rw (estimated, e) refl
    | inr e ↦ rw (estimated, e) refl
  ]

  pub IsQuiet-continue_with :
      {A B : Type 0} (f : A → M s B)
      → ((a : A) → IsQuiet (f a))
      → (a : Answer A) (w : WalletWorld s) → (continue_with s f a w).1.requests ≡ w.requests
  unfolding continue_with
  IsQuiet-continue_with f h (failed e) w = refl
  IsQuiet-continue_with f h (answered a) w = h a w

  pub IsQuiet-bind :
      {A B : Type 0} (m : M s A) (f : A → M s B)
      → IsQuiet m
      → ((a : A) → IsQuiet (f a))
      → IsQuiet (◌>>=◌ s m f)
  unfolding continue_with
  IsQuiet-bind m f h k w = IsQuiet-continue_with f k (m w).0 (m w).1 ∙ h w

  module _ (P : SignRequest → Type 0) (old : List SignRequest) where
    -- A request that `P` holds of was added, surely so where there is an answer.
    abbrev pub Signs : {A : Type 0} → Answer A × WalletWorld s → Type 0
    Signs (answered a, w) = (r : SignRequest) × P r × w.requests ≡ old ++ r ∷ []
    Signs (failed e, w) = w.requests ≡ old ⊎ ((r : SignRequest) × P r × w.requests ≡ old ++ r ∷ [])

    pub Signs-continue_with :
        {A B : Type 0} (f : A → M s B) (x : Answer A) (w : WalletWorld s)
        → w.requests ≡ old
        → ((a : A) → x ≡ answered a → Signs (f a w))
        → Signs (continue_with s f x w)
    unfolding continue_with
    Signs-continue_with f (failed e) w h k = inl h
    Signs-continue_with f (answered a) w h k = k a refl

    pub Signs-bind :
        {A B : Type 0} (m : M s A) (f : A → M s B) (w : WalletWorld s)
        → w.requests ≡ old
        → IsQuiet m
        → ((a : A) (w2 : WalletWorld s) → (m w).0 ≡ answered a → w2.requests ≡ old → Signs (f a w2))
        → Signs (◌>>=◌ s m f w)
    unfolding continue_with
    Signs-bind m f w h quiet k =
        Signs-continue_with f (m w).0 (m w).1 (quiet w ∙ h) (λ a e. k a (m w).1 e (quiet w ∙ h))

    -- What is said of an answer holds of it with any request that `P` holds of.
    pub Signs-requested :
        {A : Type 0} (x : Answer A) (w : WalletWorld s) (r : SignRequest)
        → P r
        → w.requests ≡ old ++ r ∷ []
        → Signs (x, w)
    Signs-requested (answered a) w r p e = (r, p, e)
    Signs-requested (failed t) w r p e = inr (r, p, e)

    pub Signs-request :
        {A : Type 0} (r : SignRequest) (f : s.Net → Answer A × s.Net) (w : WalletWorld s)
        → w.requests ≡ old
        → P r
        → Signs (request s r f w)
    unfolding request
    Signs-request r f w h p = Signs-requested (f w.net).0 _ r p (ap (λ rs. rs ++ r ∷ []) h)

    pub Signs-continued :
        {A B : Type 0} (f : A → M s B) (x : Answer A) (w : WalletWorld s)
        → Signs (x, w)
        → ((a : A) → IsQuiet (f a))
        → Signs (continue_with s f x w)
    unfolding continue_with
    Signs-continued f (failed e) w h quiet = h
    Signs-continued f (answered a) w (r, p, e) quiet =
        Signs-requested (f a w).0 (f a w).1 r p (quiet a w ∙ e)

    -- A quiet computation behind a request.
    pub Signs-then :
        {A B : Type 0} (m : M s A) (f : A → M s B) (w : WalletWorld s)
        → Signs (m w)
        → ((a : A) → IsQuiet (f a))
        → Signs (◌>>=◌ s m f w)
    unfolding continue_with
    Signs-then m f w h quiet = Signs-continued f (m w).0 (m w).1 h quiet

  -- An answer of a bind comes from an answer of both parts.
  pub bind-answered :
      {A B : Type 0} (m : M s A) (f : A → M s B) (w : WalletWorld s) {b : B}
      → (◌>>=◌ s m f w).0 ≡ answered b
      → (a : A) × ((m w).0 ≡ answered a) × ((f a (m w).1).0 ≡ answered b)
  unfolding continue_with
  bind-answered m f w e = of_answer f (m w).0 (m w).1 e
    where
      of_answer :
          {A B : Type 0} (f : A → M s B) (x : Answer A) (w : WalletWorld s) {b : B}
          → (continue_with s f x w).0 ≡ answered b
          → (a : A) × (x ≡ answered a) × ((f a w).0 ≡ answered b)
      of_answer f (failed t) w e = absurd cc
      of_answer f (answered a) w e = (a, refl, e)

  pub same_answer : {A : Type 0} {a b : A} → answered a ≡ answered b → a ≡ b
  same_answer e = cc

  pub or_throw-answered :
      {A : Type 0} (o : Option A) (e : String) (w : WalletWorld s) {a : A}
      → (or_throw s o e w).0 ≡ answered a
      → o ≡ some a
  unfolding or_throw
  or_throw-answered none e w h = absurd cc
  or_throw-answered (some b) e w h = ap some (same_answer h)

  pub Signs-mono :
      {A : Type 0} {P Q : SignRequest → Type 0} (old : List SignRequest) (x : Answer A)
      (w : WalletWorld s)
      → ((r : SignRequest) → P r → Q r)
      → Signs P old (x, w)
      → Signs Q old (x, w)
  Signs-mono old (answered a) w f (r, p, e) = (r, f r p, e)
  Signs-mono old (failed t) w f (inl e) = inl e
  Signs-mono old (failed t) w f (inr (r, p, e)) = inr (r, f r p, e)
