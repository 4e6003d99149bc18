-- ===== src/Form/Address.antt =====
-- `useTransferFormState` of client_app/src/hooks/useTransferFormState.ts: the fields of the form and the
-- search parameters of the page's address. A navigation is done before the next change is handled.
use spectra_portal.Base.{String, List, [], ◌∷◌, if◌then◌else◌, is_truthy, opt_or}
use spectra_portal.Base.Dict
use spectra_portal.Base.Dict.{Dict}
use spectra_portal.Transfer.{TransferMode, manual}

pub record Form : Type 0 where
  pub send_chain : String
  pub receive_chain : String
  pub send_token : String
  pub receive_token : String
  pub amount : String
  pub mode : TransferMode

-- The form, and the search parameters of the address.
pub record Page : Type 0 where
  pub form : Form
  pub params : Dict String

-- The fields start with the parameters that the page is opened with.
unfoldable pub open_page : Dict String → Page
open_page params = record {
  form = record {
    send_chain = opt_or (Dict.get "from_chain" params) "";
    receive_chain = opt_or (Dict.get "to_chain" params) "";
    send_token = opt_or (Dict.get "send_asset" params) "";
    receive_token = opt_or (Dict.get "receive_asset" params) "";
    amount = opt_or (Dict.get "amount" params) "";
    mode = manual;
  };
  params = params;
}

-- `if (value) params.set(key, value); else params.delete(key);`
unfoldable pub update_param : String → String → Dict String → Dict String
update_param key value params =
    if is_truthy value then Dict.set key value params else Dict.delete key params

-- `updateURL`, whose updates are given in their order.
unfoldable pub update_url : List (String × String) → Dict String → Dict String
unfolding update_param
update_url [] params = params
update_url ((key, value) ∷ updates) params = update_url updates (update_param key value params)

-- The arguments of `updateURL` in the handlers below.
abbrev pub send_chain_updates : String → List (String × String)
send_chain_updates chain =
    ("from_chain", chain)
    ∷ ("send_asset", "")
    ∷ ("to_chain", "")
    ∷ ("receive_asset", "")
    ∷ ("amount", "")
    ∷ []

abbrev pub receive_chain_updates : String → List (String × String)
receive_chain_updates chain = ("to_chain", chain) ∷ ("receive_asset", "") ∷ []

abbrev pub send_token_updates : String → List (String × String)
send_token_updates symbol = ("send_asset", symbol) ∷ []

abbrev pub receive_token_updates : String → List (String × String)
receive_token_updates symbol = ("receive_asset", symbol) ∷ []

unfoldable pub handle_send_chain_change : String → Page → Page
unfolding update_url
handle_send_chain_change chain page = record {
  form = record page.form {
    send_chain = chain;
    send_token = "";
    receive_chain = "";
    receive_token = "";
    amount = "";
  };
  params = update_url (send_chain_updates chain) page.params;
}

unfoldable pub handle_receive_chain_change : String → Page → Page
unfolding update_url
handle_receive_chain_change chain page = record {
  form = record page.form { receive_chain = chain; receive_token = "" };
  params = update_url (receive_chain_updates chain) page.params;
}

unfoldable pub handle_send_token_change : String → Page → Page
unfolding update_url
handle_send_token_change symbol page = record {
  form = record page.form { send_token = symbol };
  params = update_url (send_token_updates symbol) page.params;
}

unfoldable pub handle_receive_token_change : String → Page → Page
unfolding update_url
handle_receive_token_change symbol page = record {
  form = record page.form { receive_token = symbol };
  params = update_url (receive_token_updates symbol) page.params;
}

-- The update that the caller gives is debounced, and does nothing.
unfoldable pub handle_amount_change : String → Page → Page
handle_amount_change value page = record page { form = record page.form { amount = value } }

unfoldable pub set_mode : TransferMode → Page → Page
set_mode mode page = record page { form = record page.form { mode = mode } }
