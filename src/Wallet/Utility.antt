-- ===== src/Wallet/Utility.antt =====
-- client_app/src/lib/wallets/walletUtility.ts: the kinds of wallets, and the wait for an extension that
-- puts its provider into the page.
use spectra_portal.Base.{
  ℕ, zero, suc, ◌+◌, ◌-◌, ◌≤◌, ◌<◌, ◌≡◌, refl, String, Bool, true, false, List, [], ◌∷◌, Option,
  none, some, if◌then◌else◌, ltb, ltb→lt, filter, str_eq, ◌||◌, arith, ◌⊎◌, inl, inr, Bool-cases,
}

pub data WalletType : Type 0 where
  keplr : WalletType
  leap : WalletType
  cosmostation : WalletType

-- The text of the enumeration's member.
abbrev pub name_of : WalletType → String
name_of keplr = "keplr"
name_of leap = "leap"
name_of cosmostation = "cosmostation"

abbrev pub wallet_types : List WalletType
wallet_types = keplr ∷ leap ∷ cosmostation ∷ []

unfoldable pub is_valid_wallet_type : String → Bool
is_valid_wallet_type text =
    str_eq "keplr" text || (str_eq "leap" text || str_eq "cosmostation" text)

-- The result of the wait: whether a provider was found, and when.
pub record Waited : Type 0 where
  pub found : Bool
  pub time : ℕ

-- `installed type t` says whether the page has the provider at the time `t`, which is what
-- `getWalletProvider` reads, and `sleep t` is the time after a timer of 100 ms.
module _ (installed : WalletType → ℕ → Bool) (sleep : ℕ → ℕ) where
  unfoldable pub is_wallet_installed : WalletType → ℕ → Bool
  is_wallet_installed type time = installed type time

  unfoldable pub get_installed_wallets : ℕ → List WalletType
  unfolding is_wallet_installed
  get_installed_wallets time = filter (λ type. is_wallet_installed type time) wallet_types

  -- The loop of `waitForWallet`; `none` is that the fuel is used up.
  unfoldable pub wait_rounds : ℕ → WalletType → ℕ → ℕ → ℕ → Option Waited
  wait_rounds zero type timeout start now = none
  wait_rounds (suc fuel) type timeout start now =
      let rest = wait_rounds fuel type timeout start (sleep now) in
      if ltb (now - start) timeout
      then if installed type now then some (record { found = true; time = now }) else rest
      else some (record { found = false; time = now })

  -- A round takes a millisecond at least, so that a round for each and one more are enough.
  unfoldable pub wait_for_wallet : WalletType → ℕ → ℕ → Option Waited
  unfolding wait_rounds
  wait_for_wallet type timeout start = wait_rounds (suc timeout) type timeout start start

  -- `getWalletProviderAsync`, where a wait that ends without a provider is the exception.
  unfoldable pub get_wallet_provider_async : WalletType → ℕ → Option Waited
  unfolding wait_for_wallet
  get_wallet_provider_async type now =
      if installed type now
      then some (record { found = true; time = now })
      else wait_for_wallet type 1000 now

  -- A provider that is found is there, and in time; the wait is given up only after its time.
  pub record Ends (type : WalletType) (timeout start : ℕ) (result : Option Waited) : Type 0 where
    pub waited : Waited
    pub is : result ≡ some waited
    pub ends :
        ((waited.found ≡ true)
          × (installed type waited.time ≡ true)
          × (waited.time < start + timeout))
        ⊎ ((waited.found ≡ false) × (start + timeout ≤ waited.time))

  round-Ends :
      (rest : Option Waited) (type : WalletType) (timeout start now : ℕ)
      → (now - start < timeout → Ends type timeout start rest)
      → start ≤ now
      → Ends type timeout start (
          if ltb (now - start) timeout
          then if installed type now then some (record { found = true; time = now }) else rest
          else some (record { found = false; time = now }))
  round-Ends rest type timeout start now again from =
      elim (Bool-cases (ltb (now - start) timeout)) [
        | inr over ↦ rw over (record { waited = _; is = refl; ends = inr (refl, ground arith) })
        | inl goes_on ↦ rw goes_on (elim (Bool-cases (installed type now)) [
          | inl there ↦
              rw there (record { waited = _; is = refl; ends = inl (refl, there, ground arith) })
          | inr missing ↦ rw missing (again (ltb→lt _ _ goes_on))
        ])
      ]

  wait_rounds-Ends :
      ((t : ℕ) → t < sleep t)
      → (fuel : ℕ) (type : WalletType) (timeout start now : ℕ) → start ≤ now
      → start + timeout ≤ now + fuel
      → Ends type timeout start (wait_rounds (suc fuel) type timeout start now)
  unfolding wait_rounds
  wait_rounds-Ends later zero type timeout start now from enough =
      round-Ends none type timeout start now (λ soon. absurd (omega arith)) from
  wait_rounds-Ends later (suc fuel) type timeout start now from enough =
      let past = later now in
      round-Ends (wait_rounds (suc fuel) type timeout start (sleep now)) type timeout start now
        (λ soon.
          wait_rounds-Ends later fuel type timeout start (sleep now) (omega arith) (omega arith))
        from

  -- If a timer ends later than it was set, the wait for a wallet ends within its rounds: with a
  -- provider that the page has by then, before the time is over, or without one, after it.
  pub wait_for_wallet-Ends :
      ((t : ℕ) → t < sleep t)
      → (type : WalletType) (timeout start : ℕ)
      → Ends type timeout start (wait_for_wallet type timeout start)
  unfolding wait_for_wallet
  wait_for_wallet-Ends later type timeout start =
      wait_rounds-Ends later timeout type timeout start start (omega arith) (omega arith)
