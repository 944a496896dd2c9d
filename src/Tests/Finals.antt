-- ===== src/Tests/Finals.antt =====
-- The theorems on finalizing an order, applied.
use mnemoca.Prelude.{
  true, none, some, List, [], ◌∷◌, ok, ◌≡◌, ◌≢◌, refl, ◌⊎◌, lookup, ap, str_eq, arith,
}
use mnemoca.Store.Fault.{fine}
use mnemoca.Store.Bucket.{empty}
use mnemoca.Audit.Record.{Bytes}
use mnemoca.Ca.Issuing.{Cert}
use mnemoca.Ca.Request.{Weather, issue}
use mnemoca.Acme.Orders.{Order, Status}
use mnemoca.Acme.Problem.{Account}
use mnemoca.Acme.Finalize.{
  ParsedCsr, CsrForms, Desk, DeskCall, is_owner, request_of, stored_of, finalize_admitted,
  handle_finalize, handle_cert,
}
use mnemoca.Acme.Finalize.Admitted.{IsAdmitted, handle_finalize-IsAdmitted}
use mnemoca.Acme.Finalize.Filed.{finalized_served, finalized_twice, done_order}
use mnemoca.Prelude.{contains, insert}
use mnemoca.Store.Bucket.{get, put}
use mnemoca.Pkix.Algs.{lookup_alg, entry_of}
use mnemoca.Ca.Profile.{ext_key_usages, key_usage, named_usages}
use mnemoca.Ca.State.{log_ca}
use mnemoca.Ca.Issue.{plan_issue, chain_targets, clamp_validity}
use mnemoca.Ca.Issuing.{issue_all, issue_one, keep_one, sign_one}
use mnemoca.Ca.Request.{prepare}
use mnemoca.Acme.Finalize.{file_cert}
use mnemoca.Tests.Certs.{with_default, signs_all, half, csr}

abbrev acct : Account
acct = record {
  id = "a1";
  thumbprint = "t";
  jwk = "{}";
  contact = [];
  status = "valid";
  eab = "";
  created_at = 5;
}

abbrev order : Order
order = record {
  id = "o";
  account_id = "a1";
  status = Status.ready;
  expires = 90;
  identifiers = "a.example" ∷ [];
  authz_ids = [];
  cert_id = "";
  error = none;
}

abbrev parsed : ParsedCsr
parsed = record {
  csr = csr;
  names = record {
    common_name = "";
    dns_names = "a.example" ∷ [];
    email_addresses = [];
    ip_addresses = [];
    uris = [];
  };
}

abbrev forms : CsrForms
forms = record {
  body_csr = λ b. some "csr";
  unbase64 = λ s. some [];
  parse_csr = λ b. some parsed;
  chain_pem = λ cert. 9 ∷ [];
}

abbrev desk : Desk
desk = record {
  orders = record { docs = ("o", order) ∷ []; seq = 0 };
  certs = empty;
  ca = with_default;
  log = [];
}

-- every call goes through
abbrev fair : Weather
fair = record half {
  call = λ target. record { serial = some target; now = 1000; stored = fine; audited = fine };
}

abbrev call : DeskCall
call = record {
  now = 5;
  fresh_id = "c1";
  weather = fair;
  on_order = fine;
  on_cert = fine;
  on_update = fine;
  on_log = fine;
}

abbrev second_call : DeskCall
second_call = record call { fresh_id = "c2" }

handle_finalize-IsAdmitted_example :
    let (answer, desk') = handle_finalize forms signs_all call "acme" (some acct) "o" [] desk in
    ((desk' ≡ desk) × ((o : Order) → answer ≢ ok o))
    ⊎ ((o : Order) × (p : ParsedCsr) × IsAdmitted forms signs_all (some acct) "o" desk o p
        × ((answer, desk') ≡ finalize_admitted forms signs_all call "acme" (some acct) o p desk))
handle_finalize-IsAdmitted_example =
    handle_finalize-IsAdmitted forms signs_all call "acme" (some acct) "o" [] desk

abbrev after : Desk
after = (finalize_admitted forms signs_all call "acme" (some acct) order parsed desk).1

abbrev after_both : Desk
after_both = (finalize_admitted forms signs_all second_call "acme" (some acct) order parsed after).1

finalized_served_example :
    (cert : Cert) × (certs : List Cert) × ((issue signs_all fair
        (request_of forms signs_all "acme" parsed)
        with_default).0
      ≡ ok (cert ∷ certs))
    × (Status.valid ≡ Status.valid)
    × (lookup "o" after.orders.docs ≡ some (done_order forms signs_all call order))
    × (handle_cert forms signs_all fine (some acct) "c1" after ≡ ok (forms.chain_pem cert))
    × ((chain : Bytes)
        → handle_cert forms signs_all fine none "c1" after ≡ ok chain
        → is_owner none "a1" ≡ true)
unfolding finalize_admitted file_cert issue prepare get lookup plan_issue lookup_alg contains
    issue_all issue_one ext_key_usages key_usage named_usages put log_ca insert chain_targets
    clamp_validity keep_one sign_one entry_of
finalized_served_example =
    finalized_served forms signs_all call "acme" acct order parsed desk
      (done_order forms signs_all call order) after none refl

finalized_twice_example :
    (first : Cert) × (second : Cert) × (lookup "c1" after_both.certs.docs
      ≡ some (stored_of forms signs_all call (some acct) first))
    × (lookup "c2" after_both.certs.docs
        ≡ some (stored_of forms signs_all second_call (some acct) second))
    × (lookup "o" after_both.orders.docs ≡ some (done_order forms signs_all second_call order))
unfolding finalize_admitted file_cert issue prepare get lookup plan_issue lookup_alg contains
    issue_all issue_one ext_key_usages key_usage named_usages put log_ca insert chain_targets
    clamp_validity keep_one sign_one entry_of
finalized_twice_example =
    finalized_twice forms signs_all call second_call "acme" acct order parsed parsed desk
      (done_order forms signs_all call order) (done_order forms signs_all second_call order) after
      after_both (λ e. ground (arith, ap (λ h. str_eq h "c1") e)) refl refl
