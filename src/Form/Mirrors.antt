-- ===== src/Form/Mirrors.antt =====
-- The address of the page shows the form (client_app/src/hooks/useTransferFormState.ts), so that the page
-- that is opened with it shows the same chains and tokens.
use spectra_portal.Base.{
  ◌≡◌, refl, sym, ap, ◌∙◌, String, List, [], ◌∷◌, is_truthy, opt_or, str_eq, Bool-cases, inl, inr,
  eq_iff, arith, if◌then◌else◌,
}
use spectra_portal.Base.Dict
use spectra_portal.Base.Dict.{Dict, str_eq_self, get-set, get-delete}
use spectra_portal.Transfer.{TransferMode}
use spectra_portal.Form.Address.{
  Page, open_page, update_param, update_url, handle_send_chain_change, handle_receive_chain_change,
  handle_send_token_change, handle_receive_token_change, handle_amount_change, set_mode,
  send_chain_updates, receive_chain_updates, send_token_updates, receive_token_updates,
}

-- `params.get(key) ?? ""`
abbrev pub shown : String → Dict String → String
shown key params = opt_or (Dict.get key params) ""

shown-update_param :
    (key k value : String) (params : Dict String)
    → shown key (update_param k value params) ≡ (if str_eq k key then value else shown key params)
unfolding update_param
shown-update_param key k value params = elim (Bool-cases (is_truthy value)) [
  | inl full ↦ elim (Bool-cases (str_eq k key)) [
    | inl same ↦ rw (update_param, full, get-set key k value params, same, full) refl
    | inr other ↦ rw (update_param, full, get-set key k value params, other) refl
  ]
  | inr empty ↦ elim (Bool-cases (str_eq k key)) [
    | inl same ↦
        let blank : value ≡ "" = ground (arith, eq_iff value "") in
        rw (update_param, empty, get-delete key k params, same) (sym blank)
    | inr other ↦ rw (update_param, empty, get-delete key k params, other) refl
  ]
]

-- The last value that the updates give to a key.
abbrev latest : String → String → List (String × String) → String
latest key value [] = value
latest key value ((k, v) ∷ updates) = latest key (if str_eq k key then v else value) updates

shown-update_url :
    (key : String) (updates : List (String × String)) (params : Dict String)
    → shown key (update_url updates params) ≡ latest key (shown key params) updates
unfolding update_url
shown-update_url key [] params = refl
shown-update_url key ((k, v) ∷ updates) params =
    shown-update_url key updates (update_param k v params)
    ∙ ap (λ value. latest key value updates) (shown-update_param key k v params)

-- The address shows the chains and the tokens of the form.
pub record Mirrors (page : Page) : Type 0 where
  pub from_chain : shown "from_chain" page.params ≡ page.form.send_chain
  pub to_chain : shown "to_chain" page.params ≡ page.form.receive_chain
  pub send_asset : shown "send_asset" page.params ≡ page.form.send_token
  pub receive_asset : shown "receive_asset" page.params ≡ page.form.receive_token

-- What the user changes.
pub data Change : Type 0 where
  send_chain receive_chain send_token receive_token amount : String → Change
  mode : TransferMode → Change

unfoldable pub change : Change → Page → Page
unfolding handle_send_chain_change handle_receive_chain_change handle_send_token_change
    handle_receive_token_change handle_amount_change set_mode
change (send_chain chain) page = handle_send_chain_change chain page
change (receive_chain chain) page = handle_receive_chain_change chain page
change (send_token symbol) page = handle_send_token_change symbol page
change (receive_token symbol) page = handle_receive_token_change symbol page
change (amount value) page = handle_amount_change value page
change (mode m) page = set_mode m page

unfoldable pub change_all : List Change → Page → Page
unfolding change
change_all [] page = page
change_all (c ∷ cs) page = change_all cs (change c page)

change-Mirrors : (c : Change) (page : Page) → Mirrors page → Mirrors (change c page)
unfolding handle_send_chain_change handle_receive_chain_change handle_send_token_change
    handle_receive_token_change handle_amount_change set_mode change
change-Mirrors (send_chain chain) page h = record {
  from_chain = shown-update_url "from_chain" (send_chain_updates chain) page.params;
  to_chain = shown-update_url "to_chain" (send_chain_updates chain) page.params;
  send_asset = shown-update_url "send_asset" (send_chain_updates chain) page.params;
  receive_asset = shown-update_url "receive_asset" (send_chain_updates chain) page.params;
}
change-Mirrors (receive_chain chain) page h = record {
  from_chain =
      shown-update_url "from_chain" (receive_chain_updates chain) page.params ∙ h.from_chain;
  to_chain = shown-update_url "to_chain" (receive_chain_updates chain) page.params;
  send_asset =
      shown-update_url "send_asset" (receive_chain_updates chain) page.params ∙ h.send_asset;
  receive_asset = shown-update_url "receive_asset" (receive_chain_updates chain) page.params;
}
change-Mirrors (send_token symbol) page h = record {
  from_chain = shown-update_url "from_chain" (send_token_updates symbol) page.params ∙ h.from_chain;
  to_chain = shown-update_url "to_chain" (send_token_updates symbol) page.params ∙ h.to_chain;
  send_asset = shown-update_url "send_asset" (send_token_updates symbol) page.params;
  receive_asset =
      shown-update_url "receive_asset" (send_token_updates symbol) page.params ∙ h.receive_asset;
}
change-Mirrors (receive_token symbol) page h = record {
  from_chain =
      shown-update_url "from_chain" (receive_token_updates symbol) page.params ∙ h.from_chain;
  to_chain = shown-update_url "to_chain" (receive_token_updates symbol) page.params ∙ h.to_chain;
  send_asset =
      shown-update_url "send_asset" (receive_token_updates symbol) page.params ∙ h.send_asset;
  receive_asset = shown-update_url "receive_asset" (receive_token_updates symbol) page.params;
}
change-Mirrors (amount value) page h = record {
  from_chain = h.from_chain;
  to_chain = h.to_chain;
  send_asset = h.send_asset;
  receive_asset = h.receive_asset;
}
change-Mirrors (mode m) page h = record {
  from_chain = h.from_chain;
  to_chain = h.to_chain;
  send_asset = h.send_asset;
  receive_asset = h.receive_asset;
}

change_all-Mirrors : (cs : List Change) (page : Page) → Mirrors page → Mirrors (change_all cs page)
unfolding change_all
change_all-Mirrors [] page h = h
change_all-Mirrors (c ∷ cs) page h = change_all-Mirrors cs (change c page) (change-Mirrors c page h)

open_page-Mirrors : (params : Dict String) → Mirrors (open_page params)
unfolding open_page
open_page-Mirrors params = record {
  from_chain = refl;
  to_chain = refl;
  send_asset = refl;
  receive_asset = refl;
}

-- However the user changes the form after the page was opened, reloading the page with the address
-- that it then has gives the same chains and the same tokens.
pub open_page-change_all :
    (params : Dict String) (cs : List Change)
    → let page = change_all cs (open_page params) in
      let again = open_page page.params in
      (again.form.send_chain ≡ page.form.send_chain)
      × (again.form.receive_chain ≡ page.form.receive_chain)
      × (again.form.send_token ≡ page.form.send_token)
      × (again.form.receive_token ≡ page.form.receive_token)
unfolding open_page
open_page-change_all params cs =
    let h = change_all-Mirrors cs (open_page params) (open_page-Mirrors params) in
    (h.from_chain, h.to_chain, h.send_asset, h.receive_asset)
