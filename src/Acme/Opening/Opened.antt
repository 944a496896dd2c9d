-- ===== src/Acme/Opening/Opened.antt =====
-- What opening an order leaves stored.
use mnemoca.Prelude.{Option, List, ◌≡◌, ◌+◌}
use mnemoca.Store.Fault.{Fault}
use mnemoca.Store.Bucket.{Bucket}
use mnemoca.Acme.Problem.{Account}
use mnemoca.Acme.Orders.{Order, Status}
use mnemoca.Acme.Opening.{Identifier, OrderCall, Opening}
use mnemoca.Acme.Opening.Places.{authz_ids_of}
use mnemoca.Acme.Opening.Checked.{IsRequested}

-- The order is pending, the account's, for the names of the request, with the authorizations of their
-- places, and stays usable for a day.
abbrev pub IsOpened : OrderCall → Account → Option (List Identifier) → Order → Type 0
IsOpened c acct body o =
    IsRequested body o.identifiers
    × (o.id ≡ c.fresh_id)
    × (o.status ≡ Status.pending)
    × (o.account_id ≡ acct.id)
    × (o.expires ≡ c.now + 86400)
    × (o.authz_ids ≡ authz_ids_of c.authz_calls 0 o.identifiers)
