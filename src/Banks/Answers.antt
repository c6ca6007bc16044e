-- ===== src/Banks/Answers.antt =====
-- What the clients of all banks promise the workers: the statuses that they answer with.
use payments_hub.Base.{Bool, true, false, ◌≡◌, ◌⊎◌, inl, inr, refl, if◌then◌else◌}
use payments_hub.Base.Bytes.{Bytes}
use payments_hub.Base.Result.{Error, Result, ok, err}
use payments_hub.Payment.Lifecycle.{Status, sent, settled, failed, is, transition}
use payments_hub.Queue.{SendPixRequest}
use payments_hub.Banks.Wire.{Outside, Conn, Call, continue, pure, raise, ◌>>=◌, ◌>>◌}
use payments_hub.Banks.Pix.{SendPixResult, PixStatusResult, PaymentGateway}
use payments_hub.Banks.Bb
use payments_hub.Banks.Bradesco
use payments_hub.Banks.Btg
use payments_hub.Banks.Caixa
use payments_hub.Banks.Inter
use payments_hub.Banks.Santander
use payments_hub.Banks.Sicoob
use payments_hub.Banks.Itau
use payments_hub.Banks.Itau.Gateway as ItauGateway

-- Whatever the call returns without an error has the property.
pub data Yields {A : Type 0} (P : A → Type 0) (m : Call A) : Type 0 where
  yields : ((c : Conn) (a : A) → (m c).0 ≡ ok a → P a) → Yields P m

module _ {A : Type 0} {P : A → Type 0} where
  pure_yields : (a : A) → P a → Yields P (pure a)
  unfolding pure
  pure_yields a p = yields (λ c b h. the_value a b h p)
    where
      the_value : (a b : A) → ◌≡◌ {A = Result A} (ok a) (ok b) → P a → P b
      the_value a b h p = rw⁻¹ (unwrap a b h) p
        where
          unwrap : (a b : A) → ◌≡◌ {A = Result A} (ok a) (ok b) → a ≡ b
          unwrap a b h = cc

  raise_yields : (e : Error) → Yields P (raise e)
  unfolding raise
  raise_yields e = yields (λ c b h. cc)

module _ {A B : Type 0} {P : B → Type 0} where
  bind_yields : (m : Call A) (f : A → Call B) → ((a : A) → Yields P (f a)) → Yields P (m >>= f)
  unfolding ◌>>=◌
  bind_yields m f h = yields (λ c b e. continued (m c) b e)
    where
      continued : (r : Result A × Conn) (b : B) → (continue r.0 f r.1).0 ≡ ok b → P b
      continued (err x, d) b e = cc
      continued (ok a, d) b e = elim (h a) [ yields k ↦ k d b e ]

module _ {B : Type 0} {P : B → Type 0} where
  then_yields : (m : Call (Unit {0})) (k : Call B) → Yields P k → Yields P (m >> k)
  unfolding ◌>>◌
  then_yields m k h = bind_yields m (λ _. k) (λ _. h)

-- The answers that `SendPix` may give, and those of `GetPixStatus`.
abbrev pub IsSentStatus : Status → Type 0
IsSentStatus s = (s ≡ sent) ⊎ (s ≡ settled)

abbrev pub IsKnownStatus : Status → Type 0
IsKnownStatus s = (s ≡ sent) ⊎ ((s ≡ settled) ⊎ (s ≡ failed))

-- What the workers rely on.
pub record IsSound (g : PaymentGateway) : Type 0 where
  pub send_status :
      (req : SendPixRequest)
      → Yields (λ (r : SendPixResult). IsSentStatus r.status) (g.send_pix req)
  pub current_status :
      (ref : Bytes)
      → Yields (λ (r : PixStatusResult). IsKnownStatus r.status) (g.get_pix_status ref)

sent_settled : transition sent settled ≡ ok tt
unfolding transition
sent_settled = refl

sent_failed : transition sent failed ≡ ok tt
unfolding transition
sent_failed = refl

one_sent : (b : Bool) → IsSentStatus (if b then settled else sent)
one_sent true = inr refl
one_sent false = inl refl

one_known : (b d : Bool) → IsKnownStatus (if b then settled else if d then failed else sent)
one_known true d = inr (inl refl)
one_known false true = inr (inr refl)
one_known false false = inl refl

-- A client with its configuration.
pub data Adapter : Type 0 where
  bb : Bb.Config → Adapter
  bradesco : Bradesco.Config → Adapter
  btg : Btg.Config → Adapter
  caixa : Adapter
  inter : Inter.Config → Adapter
  itau : Itau.Config → Adapter
  santander : Santander.Config → Adapter
  sicoob : Sicoob.Config → Adapter

abbrev pub gateway_of : Outside → Adapter → PaymentGateway
gateway_of out (bb cfg) = Bb.gateway out cfg
gateway_of out (bradesco cfg) = Bradesco.gateway out cfg
gateway_of out (btg cfg) = Btg.gateway out cfg
gateway_of out caixa = Caixa.gateway
gateway_of out (inter cfg) = Inter.gateway out cfg
gateway_of out (itau cfg) = ItauGateway.gateway out cfg
gateway_of out (santander cfg) = Santander.gateway out cfg
gateway_of out (sicoob cfg) = Sicoob.gateway out cfg

module _ (out : Outside) where
  bb-IsSound : (cfg : Bb.Config) → IsSound (Bb.gateway out cfg)
  unfolding Bb.send_pix Bb.get_pix_status
  bb-IsSound cfg = record {
    send_status = λ req.
        bind_yields _ _ λ r. bind_yields _ _ λ p. bind_yields _ _ λ now. pure_yields _ (one_sent _);
    current_status = λ ref. bind_yields _ _ λ r. bind_yields _ _ λ p. pure_yields _ (one_known _ _);
  }

  bradesco-IsSound : (cfg : Bradesco.Config) → IsSound (Bradesco.gateway out cfg)
  unfolding Bradesco.send_pix Bradesco.get_pix_status
  bradesco-IsSound cfg = record {
    send_status = λ req. bind_yields _ _ λ at.
        bind_yields _ _ λ r. bind_yields _ _ λ p. bind_yields _ _ λ now. pure_yields _ (one_sent _);
    current_status = λ ref. bind_yields _ _ λ r. bind_yields _ _ λ p. pure_yields _ (one_known _ _);
  }

  btg-IsSound : (cfg : Btg.Config) → IsSound (Btg.gateway out cfg)
  unfolding Btg.send_pix Btg.get_pix_status
  btg-IsSound cfg = record {
    send_status = λ req.
        bind_yields _ _ λ r. bind_yields _ _ λ p. bind_yields _ _ λ now. pure_yields _ (one_sent _);
    current_status = λ ref. bind_yields _ _ λ r. bind_yields _ _ λ p. pure_yields _ (one_known _ _);
  }

  inter-IsSound : (cfg : Inter.Config) → IsSound (Inter.gateway out cfg)
  unfolding Inter.send_pix Inter.get_pix_status
  inter-IsSound cfg = record {
    send_status = λ req.
        bind_yields _ _ λ r. bind_yields _ _ λ p. bind_yields _ _ λ now. pure_yields _ (one_sent _);
    current_status = λ ref. bind_yields _ _ λ r. bind_yields _ _ λ p. pure_yields _ (one_known _ _);
  }

  santander-IsSound : (cfg : Santander.Config) → IsSound (Santander.gateway out cfg)
  unfolding Santander.send_pix Santander.get_pix_status
  santander-IsSound cfg = record {
    send_status = λ req.
        bind_yields _ _ λ r. bind_yields _ _ λ p. bind_yields _ _ λ now. pure_yields _ (one_sent _);
    current_status = λ ref. bind_yields _ _ λ r. bind_yields _ _ λ p. pure_yields _ (one_known _ _);
  }

  sicoob-IsSound : (cfg : Sicoob.Config) → IsSound (Sicoob.gateway out cfg)
  unfolding Sicoob.send_pix Sicoob.get_pix_status
  sicoob-IsSound cfg = record {
    send_status = λ req.
        bind_yields _ _ λ r. bind_yields _ _ λ p. bind_yields _ _ λ now. pure_yields _ (one_sent _);
    current_status = λ ref. bind_yields _ _ λ r. bind_yields _ _ λ p. pure_yields _ (one_known _ _);
  }

  itau-IsSound : (cfg : Itau.Config) → IsSound (ItauGateway.gateway out cfg)
  unfolding ItauGateway.send_pix ItauGateway.get_pix_status
  itau-IsSound cfg = record {
    send_status = λ req. then_yields _ _ (
        bind_yields _ _ λ at. bind_yields _ _ λ r.
          bind_yields _ _ λ p. then_yields _ _ (bind_yields _ _ λ now. pure_yields _ (one_sent _)));
    current_status = λ ref. bind_yields _ _ λ r. bind_yields _ _ λ p. pure_yields _ (one_known _ _);
  }

  caixa-IsSound : IsSound Caixa.gateway
  unfolding Caixa.send_pix Caixa.get_pix_status
  caixa-IsSound = record {
    send_status = λ req. raise_yields _;
    current_status = λ ref. raise_yields _;
  }

  adapter-IsSound : (a : Adapter) → IsSound (gateway_of out a)
  adapter-IsSound (bb cfg) = bb-IsSound cfg
  adapter-IsSound (bradesco cfg) = bradesco-IsSound cfg
  adapter-IsSound (btg cfg) = btg-IsSound cfg
  adapter-IsSound caixa = caixa-IsSound
  adapter-IsSound (inter cfg) = inter-IsSound cfg
  adapter-IsSound (itau cfg) = itau-IsSound cfg
  adapter-IsSound (santander cfg) = santander-IsSound cfg
  adapter-IsSound (sicoob cfg) = sicoob-IsSound cfg

  -- Whichever bank answers, and whatever it answers: a transfer that was sent without an error is
  -- SENT or SETTLED.
  pub send_pix-status :
      (a : Adapter) (req : SendPixRequest) (c : Conn) (r : SendPixResult)
      → ((gateway_of out a).send_pix req c).0 ≡ ok r
      → (r.status ≡ sent) ⊎ (r.status ≡ settled)
  send_pix-status a req c r h = elim ((adapter-IsSound a).send_status req) [ yields k ↦ k c r h ]

  -- Whichever bank answers, and whatever it answers: the status of a transfer is SENT still, or is
  -- one that a payment with the status SENT may take.
  pub get_pix_status-legal :
      (a : Adapter) (ref : Bytes) (c : Conn) (r : PixStatusResult)
      → ((gateway_of out a).get_pix_status ref c).0 ≡ ok r
      → (is r.status sent ≡ true) ⊎ (transition sent r.status ≡ ok tt)
  get_pix_status-legal a ref c r h = elim ((adapter-IsSound a).current_status ref) [
    | yields k ↦ legal r.status (k c r h)
  ]
    where
      legal : (s : Status) → IsKnownStatus s → (is s sent ≡ true) ⊎ (transition sent s ≡ ok tt)
      legal s (inl e) = inl (rw (e) refl)
      legal s (inr (inl e)) = inr (rw (e) sent_settled)
      legal s (inr (inr e)) = inr (rw (e) sent_failed)
