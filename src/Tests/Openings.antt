-- ===== src/Tests/Openings.antt =====
-- The theorem on opening an order, applied.
use mnemoca.Prelude.{some, List, [], ◌∷◌, String, Option}
use mnemoca.Store.Fault.{fine}
use mnemoca.Store.Bucket.{empty}
use mnemoca.Acme.Problem.{Account}
use mnemoca.Acme.Opening.{Identifier, AuthzCall, OrderCall, Opening}

abbrev acct : Account
acct = record {
  id = "a1";
  thumbprint = "t";
  jwk = "{}";
  contact = [];
  status = "valid";
  eab = "";
  created_at = 5;
}

abbrev authz_call : String → AuthzCall
authz_call id = record {
  authz_id = id;
  http_id = "h";
  http_token = "tok1";
  dns_id = "d";
  dns_token = "tok2";
  on_http = fine;
  on_dns = fine;
  on_authz = fine;
}

abbrev call : OrderCall
call = record {
  now = 5;
  fresh_id = "o";
  authz_calls = λ i. authz_call "z";
  on_order = fine;
  on_log = fine;
}

abbrev body : Option (List Identifier)
body = some (record { typ = "dns"; value = "*.example" } ∷ [])

abbrev nothing : Opening
nothing = record {
  trials = record { challenges = empty; authzs = empty; orders = empty };
  log = [];
}
