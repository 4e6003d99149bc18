-- ===== src/Rest/Answers.antt =====
-- What stands behind a receive transaction that the tracking finds, down to the requests of
-- client_app/src/lib/apiQueries/fetchApiData.ts.
use spectra_portal.Base.{
  ℕ, ◌≡◌, refl, String, true, false, List, ◌∷◌, some, inl, inr, Bool-cases, Option-cases, arith,
}
use spectra_portal.Config.{ClientChain}
use spectra_portal.Tracking.{PacketData, TxResponse, found, query_ibc_receive}
use spectra_portal.Tracking.Receive.{Receives, query_ibc_receive-Found}
use spectra_portal.Health.Checks.{Reply, replied, unreadable, contents, is_ok}
use spectra_portal.Rest.Platform.{Rest}
use spectra_portal.Rest.Fetch.{
  TransactionRequestByEvents, make_url_for_transaction_by_events, choose_api, parse_events,
  events_of, fetch_transaction_by_events, chain_api,
}

module _ (rest : Rest) where
  open rest use {
    Net, Document, fetch_health, pick, fetch, encode_uri_component, parse_ev_transaction,
    is_transaction_not_found,
  }

  -- A response by events: the API that was chosen among the chain's healthy ones answered the request
  -- for the queries with a good status and a document that is parsed as the transactions.
  pub record IsDocumented (chain : ClientChain) (request : TransactionRequestByEvents)
      (txs : List TxResponse) : Type 0 where
    pub asked : Net
    pub api : String
    pub chosen : (choose_api rest chain.id asked).0 ≡ some api
    pub sent : Net
    pub status : ℕ
    pub document : Document
    pub reply :
        (fetch (make_url_for_transaction_by_events encode_uri_component api chain request) sent).0
        ≡ replied status (contents document)
    pub ok : is_ok status ≡ true
    pub indexed : is_transaction_not_found document ≡ false
    pub parsed : parse_ev_transaction document ≡ some txs

  -- A reply that is read as transactions.
  record IsRead (reply : Reply Document) (txs : List TxResponse) : Type 0 where
    status : ℕ
    document : Document
    is : reply ≡ replied status (contents document)
    ok : is_ok status ≡ true
    indexed : is_transaction_not_found document ≡ false
    parsed : parse_ev_transaction document ≡ some txs

  parse_events-found :
      (document : Document) {txs : List TxResponse}
      → parse_events rest document ≡ found txs
      → (is_transaction_not_found document ≡ false) × (parse_ev_transaction document ≡ some txs)
  unfolding parse_events
  parse_events-found document e = ground arith

  events_of-IsRead :
      (chain : ClientChain) (queries : List String) (reply : Reply Document) {txs : List TxResponse}
      → events_of rest chain queries reply ≡ found txs
      → IsRead reply txs
  unfolding events_of
  events_of-IsRead chain queries (Reply.failed error) e = absurd (ground arith)
  events_of-IsRead chain queries (replied status (unreadable error)) e = absurd (ground arith)
  events_of-IsRead chain queries (replied status (contents document)) e =
      elim (Bool-cases (is_ok status)) [
        | inr bad ↦ absurd (ground arith)
        | inl ok ↦
            let (indexed, parsed) = parse_events-found document (rw (ok, events_of) at e) in
            record {
              status = status;
              document = document;
              is = refl;
              ok = ok;
              indexed = indexed;
              parsed = parsed;
            }
      ]

  fetch_transaction_by_events-IsDocumented :
      (chain : ClientChain) (request : TransactionRequestByEvents) (net : Net)
      {txs : List TxResponse}
      → (fetch_transaction_by_events rest chain request net).0 ≡ found txs
      → IsDocumented chain request txs
  unfolding fetch_transaction_by_events
  fetch_transaction_by_events-IsDocumented chain request net e =
      elim (Option-cases (choose_api rest chain.id net).0) [
        | inl no_api ↦
            let gone = rw (no_api, fetch_transaction_by_events) at e in absurd (ground arith)
        | inr (api, chosen) ↦
            let sent = (choose_api rest chain.id net).1 in
            let url = make_url_for_transaction_by_events encode_uri_component api chain request in
            let read =
              events_of-IsRead chain request.queries (fetch url sent).0
                (rw (chosen, fetch_transaction_by_events) at e) in
            record {
              asked = net;
              api = api;
              chosen = chosen;
              sent = sent;
              status = read.status;
              document = read.document;
              reply = read.is;
              ok = read.ok;
              indexed = read.indexed;
              parsed = read.parsed;
            }
      ]

  -- Transactions that the tracking finds for a packet, over the REST queries: an API that was chosen
  -- among the healthy ones of the destination chain answered a request for some queries, limited to
  -- one transaction, with a good status and a document that is not the empty answer and parses as
  -- these transactions; and the first of them receives the packet. If the source timestamp is not
  -- empty, both timestamps parse, and the transaction is at most ten seconds older than the source; an
  -- empty one puts no bound on the age of the transaction.
  pub query_ibc_receive-IsDocumented :
      (dest : ClientChain) (packet : PacketData) (source_ts : String) (net : (chain_api rest).Net)
      {txs : List TxResponse}
      → (query_ibc_receive (chain_api rest) dest packet source_ts net).0 ≡ found txs
      → (queries : List String) × IsDocumented dest (record { queries = queries; limit = 1 }) txs
        × (response : TxResponse) × (others : List TxResponse) × (txs ≡ response ∷ others)
        × Receives rest.get_time packet source_ts response
  unfolding chain_api
  query_ibc_receive-IsDocumented dest packet source_ts net e =
      let f = query_ibc_receive-Found (chain_api rest) dest packet source_ts net e in
      let request : TransactionRequestByEvents = record { queries = f.queries; limit = 1 } in
      (
        f.queries,
        fetch_transaction_by_events-IsDocumented dest request f.asked f.answer,
        f.response,
        f.others,
        f.first,
        f.receives,
      )
