-- ===== src/Banks/Tests.antt =====
-- The theorems on the clients at a bank that refuses once and then answers.
use payments_hub.Base.{
  ℕ, zero, suc, ◌≡◌, ◌≢◌, ◌⊎◌, refl, true, false, Option, none, some, [], length, arith,
}
use payments_hub.Base.Bytes.{codes}
use payments_hub.Base.Int.{pos, ◌+ℤ◌}
use payments_hub.Base.Result.{ok, err, panicked}
use payments_hub.Payment.Lifecycle.{sent, settled, is, transition}
use payments_hub.Banks.Wire.{
  Outside, Conn, Response, read, pure, lift, raise, require, modify, ◌>>=◌, ◌>>◌, exchange, second,
}
use payments_hub.Banks.Token.{
  TokenConfig, auth_body_params, is_cached, get_token, fetch, token_request, token_form,
  accept_reply, accept_token, keep, lifetime,
}
use payments_hub.Banks.Token.Freshness.{IsFresh, Fetched, get_token-outcome}
use payments_hub.Banks.Core.{
  ClientConfig, Message, new_client, do_with_retry, perform, execute, retry, pause, pause_for,
  attempt, bearer, build, judge,
}
use payments_hub.Banks.Core.Attempts.{Ended, do_with_retry-outcome}
use payments_hub.Banks.Core.Backoff.{do_with_retry-no-panic}
use payments_hub.Banks.Sim.{Alike}
use payments_hub.Banks.Itau.{Config}
use payments_hub.Banks.Itau
use payments_hub.Banks.Itau.Equivalence.{Script, run_by, do_with_retry-same}
use payments_hub.Banks.Pix.{PixStatusResult, format_valor, parse}
use payments_hub.Banks.Pix.Amounts.{Reads, format_valor-Reads}
use payments_hub.Banks.Bb
use payments_hub.Banks.Answers.{bb, gateway_of, get_pix_status-legal}

-- The token, a refusal, and then success.
abbrev reply_at : ℕ → Option Response
reply_at zero = some (record { status = 200; body = codes "token" })
reply_at (suc zero) = some (record { status = 503; body = [] })
reply_at (suc (suc n)) = some (record { status = 200; body = codes "answer" })

abbrev bank : Outside
bank = record {
  answer = λ log r. reply_at (length log);
  elapsed = λ log. second;
  is_url = λ url. true;
  is_cancelled = λ log. false;
  random = λ log n. 0;
  admits = λ outcomes now. true;
  marshal = λ body. some [];
  unmarshal = λ tags body. some (λ tag. codes "LIQUIDADO");
  unmarshal_token = λ body. some (record { access_token = codes "secret"; expires_in = pos 3600 });
  unmarshal_itau_token =
      λ body. some (record { access_token = codes "secret"; expires_in = pos 3600 });
  encode_form = λ form. [];
  basic_auth = λ id key. [];
  set_query = λ key value url. url;
  date = λ now. [];
  rfc3339 = λ now. [];
  parse_rfc3339 = λ s. some 7;
}

abbrev fresh : Conn
fresh = record { token = []; expires = pos 0; outcomes = []; sent = []; now = 0 }

abbrev token_config : TokenConfig
token_config = record {
  token_url = codes "https://bank/token";
  client_id = codes "id";
  client_secret = codes "key";
  scope = [];
  auth_style = auth_body_params;
  extra_form = [];
}

abbrev config : ClientConfig
config = record {
  base_url = codes "https://bank";
  max_retries = pos 3;
  initial_backoff = pos 1000;
  token = some token_config;
  decorator = none;
}

abbrev bare : ClientConfig
bare = record config { max_retries = pos 0; initial_backoff = pos 0 }

abbrev message : Message
message = record { method = codes "GET"; path = codes "/pix"; body = none; headers = [] }

do_with_retry-outcome_example :
    Ended bank config message 3 fresh (do_with_retry bank config message fresh)
do_with_retry-outcome_example = do_with_retry-outcome bank config message 2 fresh refl

do_with_retry-no-panic_example :
    (do_with_retry bank (new_client bare) message fresh).0 ≢ err panicked
unfolding new_client
do_with_retry-no-panic_example =
    do_with_retry-no-panic bank (new_client bare) message 5 500000000 fresh refl refl (omega arith)
      (omega arith)

get_token-outcome_example :
    (IsFresh fresh × (get_token bank token_config fresh ≡ (ok [], fresh)))
    ⊎ ((¬ IsFresh fresh) × Fetched bank token_config fresh (get_token bank token_config fresh))
get_token-outcome_example = get_token-outcome bank token_config fresh

abbrev served_conn : Conn
served_conn = (get_token bank token_config fresh).1

abbrev replies : Script
replies = record {
  answer_at = reply_at;
  elapsed_at = λ n. second;
  is_cancelled_at = λ n. false;
  random_at = λ n k. 0;
}

fresh-Alike : Alike fresh fresh
fresh-Alike = record { token = refl; expires = refl; now = refl; sent = refl }

abbrev itau_config : Config
itau_config = record {
  base_url = codes "https://bank";
  token_url = codes "https://bank/token";
  oauth_client_id = codes "id";
  oauth_secret = codes "key";
  scope = [];
  max_retries = pos 3;
  initial_backoff = pos 1000;
}

do_with_retry-same_example :
    ((do_with_retry (run_by replies bank) config message fresh).0
      ≡ (Itau.do_with_retry (run_by replies bank) itau_config message fresh).0)
    × Alike
        (do_with_retry (run_by replies bank) config message fresh).1
        (Itau.do_with_retry (run_by replies bank) itau_config message fresh).1
do_with_retry-same_example =
    do_with_retry-same bank replies config token_config itau_config message refl refl refl refl 2
      fresh fresh (λ i reply e. refl) refl refl refl fresh-Alike

abbrev bb_config : Bb.Config
bb_config = record {
  base_url = codes "https://bank";
  token_url = codes "https://bank/token";
  client_id = codes "id";
  client_secret = codes "key";
  gw_app_key = codes "app";
  scope = [];
}

abbrev settled_pix : PixStatusResult
settled_pix = record {
  bank_reference = codes "LIQUIDADO";
  end_to_end_id = codes "LIQUIDADO";
  status = settled;
  settled_at = some 7;
  reason = codes "LIQUIDADO";
}

bb_answers :
    ((gateway_of bank (bb bb_config)).get_pix_status (codes "ref") fresh).0 ≡ ok settled_pix
unfolding Bb.get_pix_status Bb.new_client Bb.token_config new_client perform execute do_with_retry
    retry pause pause_for attempt bearer get_token fetch is_cached token_request token_form
    accept_reply accept_token keep lifetime build judge parse exchange read pure lift raise require
    modify ◌>>=◌ ◌>>◌ ◌+ℤ◌
bb_answers = refl

get_pix_status-legal_example :
    (is settled_pix.status sent ≡ true) ⊎ (transition sent settled_pix.status ≡ ok tt)
get_pix_status-legal_example =
    get_pix_status-legal bank (bb bb_config) (codes "ref") fresh settled_pix bb_answers

format_valor-Reads_example : Reads (format_valor (pos 123405)) 123405
format_valor-Reads_example = format_valor-Reads 123405
