-- ===== src/Ssh/Libssh/States.antt =====
-- sshpuffin/src/libssh/mod.rs, `progress`: the states of the program under test.
use Prim.Native.String.{String}
use tlspuffin.Base.{◌≡◌, refl, sym, ap, ◌∙◌, Option, none, some, Result, ok, err}
use tlspuffin.Agent.{AgentType}
use tlspuffin.Ssh.Libssh.Session.{SshResult, SshAuthResult, SshRequest, Session}
use tlspuffin.Ssh.Libssh.Put.{
  PutState, exchanging_keys, authenticating, done, LibSsl, progress, progress_in, after_exchange,
  after_reply, after_password, reply_to, serve_message,
}

module _ {W Msg : Type 0} (session : Session W Msg) where
  -- The key exchange of the role is done.
  pub data Exchanged (p : LibSsl W) : Type 0 where
    by_server :
        p.agent_descriptor.typ ≡ AgentType.server
        → (session.handle_key_exchange p.world).0 ≡ ok SshResult.ok
        → Exchanged p
    by_client :
        p.agent_descriptor.typ ≡ AgentType.client
        → (session.connect p.world).0 ≡ ok SshResult.ok
        → Exchanged p

  -- A server has accepted a request for authentication, or the server of a client its password.
  pub data Authenticated (p : LibSsl W) : Type 0 where
    by_request :
        (message : Msg) (world : W)
        → p.agent_descriptor.typ ≡ AgentType.server
        → session.get_message p.world ≡ (some message, world)
        → session.typ message ≡ ok (some SshRequest.request_auth)
        → (session.auth_reply_success message world).0 ≡ ok tt
        → Authenticated p
    by_password :
        p.agent_descriptor.typ ≡ AgentType.client
        → (session.userauth_password p.world).0 ≡ ok SshAuthResult.success
        → Authenticated p

  -- What a call of `progress` does to the state.
  pub data Moves (p p' : LibSsl W) : Type 0 where
    stays : p'.state ≡ p.state → Moves p p'
    exchanged : p.state ≡ exchanging_keys → p'.state ≡ authenticating → Exchanged p → Moves p p'
    authenticated : p.state ≡ authenticating → p'.state ≡ done → Authenticated p → Moves p p'

  -- A call that returns keeps the descriptor, and moves the state so.
  abbrev MovesTo : LibSsl W → LibSsl W → Type 0
  MovesTo p p' = (p'.agent_descriptor ≡ p.agent_descriptor) × Moves p p'

  some-same : {A : Type 0} {a b : A} → some a ≡ some b → a ≡ b
  some-same e = cc

  stays-MovesTo :
      (p q p' : LibSsl W)
      → q.agent_descriptor ≡ p.agent_descriptor
      → q.state ≡ p.state
      → some q ≡ some p'
      → MovesTo p p'
  stays-MovesTo p q p' same same_state e =
      let is = some-same e in
      (
        ap (λ (x : LibSsl W). x.agent_descriptor) (sym is) ∙ same,
        stays (ap (λ (x : LibSsl W). x.state) (sym is) ∙ same_state),
      )

  after_exchange-MovesTo :
      (p p' : LibSsl W) (result : Result String SshResult) (world : W)
      → p.state ≡ exchanging_keys
      → (result ≡ ok SshResult.ok → Exchanged p)
      → after_exchange session p (result, world) ≡ some p'
      → MovesTo p p'
  after_exchange-MovesTo p p' (ok SshResult.ok) world at why e =
      let is = some-same e in
      (
        ap (λ (x : LibSsl W). x.agent_descriptor) (sym is),
        exchanged at (ap (λ (x : LibSsl W). x.state) (sym is)) (why refl),
      )
  after_exchange-MovesTo p p' (ok SshResult.again) world at why e =
      stays-MovesTo p (record p { world = world }) p' refl refl e
  after_exchange-MovesTo p p' (ok (SshResult.unknown n)) world at why e =
      stays-MovesTo p (record p { world = world }) p' refl refl e
  after_exchange-MovesTo p p' (err text) world at why e = cc

  after_password-MovesTo :
      (p p' : LibSsl W) (result : Result String SshAuthResult) (world : W)
      → p.state ≡ authenticating
      → (result ≡ ok SshAuthResult.success → Authenticated p)
      → after_password session p (result, world) ≡ some p'
      → MovesTo p p'
  after_password-MovesTo p p' (ok SshAuthResult.success) world at why e =
      let is = some-same e in
      (
        ap (λ (x : LibSsl W). x.agent_descriptor) (sym is),
        authenticated at (ap (λ (x : LibSsl W). x.state) (sym is)) (why refl),
      )
  after_password-MovesTo p p' (ok SshAuthResult.again) world at why e =
      stays-MovesTo p (record p { world = world }) p' refl refl e
  after_password-MovesTo p p' (ok SshAuthResult.partial) world at why e =
      stays-MovesTo p (record p { world = world }) p' refl refl e
  after_password-MovesTo p p' (ok SshAuthResult.denied) world at why e =
      stays-MovesTo p (record p { world = world }) p' refl refl e
  after_password-MovesTo p p' (ok (SshAuthResult.unknown n)) world at why e =
      stays-MovesTo p (record p { world = world }) p' refl refl e
  after_password-MovesTo p p' (err text) world at why e = cc

  default_reply-MovesTo :
      (p p' : LibSsl W) (out : Result String (Unit {0}) × W)
      → after_reply session p p.state out ≡ some p'
      → MovesTo p p'
  default_reply-MovesTo p p' (ok u, world) e =
      stays-MovesTo p (record p { world = world }) p' refl refl e
  default_reply-MovesTo p p' (err text, world) e = cc

  accepted-MovesTo :
      (p p' : LibSsl W) (result : Result String (Unit {0})) (world : W)
      → p.state ≡ authenticating
      → (result ≡ ok tt → Authenticated p)
      → after_reply session p done (result, world) ≡ some p'
      → MovesTo p p'
  accepted-MovesTo p p' (ok u) world at why e =
      let is = some-same e in
      (
        ap (λ (x : LibSsl W). x.agent_descriptor) (sym is),
        authenticated at (ap (λ (x : LibSsl W). x.state) (sym is)) (why refl),
      )
  accepted-MovesTo p p' (err text) world at why e = cc

  reply_to-MovesTo :
      (p p' : LibSsl W) (message : Msg) (world : W) (typ : Result String (Option SshRequest))
      → p.agent_descriptor.typ ≡ AgentType.server
      → p.state ≡ authenticating
      → session.get_message p.world ≡ (some message, world)
      → session.typ message ≡ typ
      → reply_to session p message world typ ≡ some p'
      → MovesTo p p'
  reply_to-MovesTo p p' message world (err text) role at got is e = cc
  reply_to-MovesTo p p' message world (ok none) role at got is e =
      default_reply-MovesTo p p' (session.reply_default message world) e
  reply_to-MovesTo p p' message world (ok (some SshRequest.other_request)) role at got is e =
      default_reply-MovesTo p p' (session.reply_default message world) e
  reply_to-MovesTo p p' message world (ok (some SshRequest.request_auth)) role at got is e =
      let (result, after) = session.auth_reply_success message world in
      accepted-MovesTo p p' result after at (λ done_. by_request message world role got is done_) e

  serve_message-MovesTo :
      (p p' : LibSsl W) (message : Option Msg) (world : W)
      → p.agent_descriptor.typ ≡ AgentType.server
      → p.state ≡ authenticating
      → session.get_message p.world ≡ (message, world)
      → serve_message session p (message, world) ≡ some p'
      → MovesTo p p'
  serve_message-MovesTo p p' none world role at got e =
      stays-MovesTo p (record p { world = world }) p' refl refl e
  serve_message-MovesTo p p' (some message) world role at got e =
      reply_to-MovesTo p p' message world (session.typ message) role at got refl e

  progress_in-MovesTo :
      (p p' : LibSsl W) (typ : AgentType) (state : PutState)
      → p.agent_descriptor.typ ≡ typ
      → p.state ≡ state
      → progress_in session typ state p ≡ some p'
      → MovesTo p p'
  progress_in-MovesTo p p' AgentType.server exchanging_keys role at e =
      after_exchange-MovesTo p p' (session.handle_key_exchange p.world).0
        (session.handle_key_exchange p.world).1 at (by_server role) e
  progress_in-MovesTo p p' AgentType.client exchanging_keys role at e =
      after_exchange-MovesTo p p' (session.connect p.world).0 (session.connect p.world).1 at
        (by_client role) e
  progress_in-MovesTo p p' AgentType.server authenticating role at e =
      serve_message-MovesTo p p' (session.get_message p.world).0 (session.get_message p.world).1
        role at refl e
  progress_in-MovesTo p p' AgentType.client authenticating role at e =
      after_password-MovesTo p p' (session.userauth_password p.world).0
        (session.userauth_password p.world).1 at (by_password role) e
  progress_in-MovesTo p p' AgentType.server done role at e = stays-MovesTo p p p' refl refl e
  progress_in-MovesTo p p' AgentType.client done role at e = stays-MovesTo p p p' refl refl e

  progress-MovesTo : (p p' : LibSsl W) → progress session p ≡ some p' → MovesTo p p'
  unfolding progress
  progress-MovesTo p p' e = progress_in-MovesTo p p' p.agent_descriptor.typ p.state refl refl e

  -- Calls of `progress` one after the other that return, with changes by the other methods between them,
  -- which leave the state and the descriptor.
  pub data Calls : LibSsl W → LibSsl W → Type 0 where
    here : (p : LibSsl W) → Calls p p
    call : (p q r : LibSsl W) → progress session p ≡ some q → Calls q r → Calls p r
    other :
        (p q r : LibSsl W)
        → q.state ≡ p.state
        → q.agent_descriptor ≡ p.agent_descriptor
        → Calls q r
        → Calls p r

  -- A run to the state `done` has a call that authenticates.
  abbrev pub ReachesAuthenticated : LibSsl W → LibSsl W → Type 0
  ReachesAuthenticated p r =
      (a b : LibSsl W) × Calls p a × (progress session a ≡ some b) × Authenticated a × Calls b r

  Calls-Authenticated :
      (p r : LibSsl W)
      → Calls p r
      → p.state ≡ authenticating
      → r.state ≡ done
      → ReachesAuthenticated p r
  Calls-Authenticated p r (here _) at end = cc
  Calls-Authenticated p r (other _ q _ same same_role run) at end =
      let (a, b, before, step, why, after) = Calls-Authenticated q r run (same ∙ at) end in
      (a, b, other p q a same same_role before, step, why, after)
  Calls-Authenticated p r (call _ q _ step run) at end = elim (progress-MovesTo p q step).1 [
    | stays same ↦
        let (a, b, before, next, why, after) = Calls-Authenticated q r run (same ∙ at) end in
        (a, b, call p q a step before, next, why, after)
    | exchanged was now why ↦ cc
    | authenticated was now why ↦ (p, q, here p, step, why, run)
  ]

  -- If calls of `progress` that return, with changes between them that leave the state and the role
  -- of the program under test, lead from the state in which keys are exchanged to the state `done`,
  -- then at some call the key exchange of its role was done, and at a later call it had accepted a
  -- request for authentication or, as a client, had its password accepted.
  pub Calls-Exchanged :
      (p r : LibSsl W)
      → Calls p r
      → p.state ≡ exchanging_keys
      → r.state ≡ done
      → (a b : LibSsl W) × Calls p a
        × (progress session a ≡ some b)
        × Exchanged a
        × ReachesAuthenticated b r
  Calls-Exchanged p r (here _) at end = cc
  Calls-Exchanged p r (other _ q _ same same_role run) at end =
      let (a, b, before, step, why, after) = Calls-Exchanged q r run (same ∙ at) end in
      (a, b, other p q a same same_role before, step, why, after)
  Calls-Exchanged p r (call _ q _ step run) at end = elim (progress-MovesTo p q step).1 [
    | stays same ↦
        let (a, b, before, next, why, after) = Calls-Exchanged q r run (same ∙ at) end in
        (a, b, call p q a step before, next, why, after)
    | exchanged was now why ↦ (p, q, here p, step, why, Calls-Authenticated q r run now end)
    | authenticated was now why ↦ cc
  ]
