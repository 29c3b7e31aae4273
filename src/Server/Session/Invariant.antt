-- ===== src/Server/Session/Invariant.antt =====
-- The invariant of the running server, and that every turn keeps it.
use nport.Prelude.{
  ℕ, suc, ◌+◌, ◌<◌, ◌≤◌, ◌≡◌, refl, sym, ap, ◌∙◌, ◌⊎◌, inl, inr, false, Option, none, some, List,
  [], ◌∷◌, Result, ok, err, arith, ◌==◌, if◌then◌else◌, Bool-cases, length,
}
use nport.Prelude.Int.{pos, pred_ℤ}
use nport.Text.{Text}
use nport.Text.Lowercase.{Lowercase}
use nport.Addr.Sockets.{Net}
use nport.Messages.Client.{Message}
use nport.Server.Stats.{inc, dec}
use nport.Server.State.{World, count}
use nport.Server.Env.{Env}
use nport.Server.Client.{Error, send}
use nport.Server.Registry.{register, deregister}
use nport.Server.Registry.Invariant.{Inv, IsRegistered}
use nport.Server.Registry.Effects.{count-register, count-deregister}
use nport.Server.Registry.Preservation.{register-Inv, deregister-Inv}
use nport.Server.Registry.Ownership.{Owners, view, leave, register_refines, deregister_refines}
use nport.Server.Client.Laws.{SameNames, SameNames-Inv}
use nport.Server.Msghandlers.{msg}
use nport.Server.Msghandlers.Laws.{msg-Inv}
use nport.Server.Msghandlers.Opening.{view_same}
use nport.Server.Session.Messages.{connections, msg-OnlyFor, connections-msg}
use nport.Server.Session.{
  Config, Server, connect, send_welcome, disconnect, forget, after, joined, Step, connects, handles,
  ends,
}

pub record ServerInv (s : Server) : Type 0 where
  pub inv : Inv s.world
  -- A connection in its loop is registered, once.
  pub registered : (c : ℕ) → count c s.active ≤ count c s.world.registry.clients
  -- Every name that has an owner belongs to such a connection.
  pub owners : (h : Text) (c : ℕ) → view s.world h ≡ some c → 0 < count c s.active
  -- The counter shows their number.
  pub counted : (connections s.world).count ≡ pos (length s.active)

pub count-forget :
    (c d : ℕ) (xs : List ℕ)
    → 0 < count c xs
    → count d (forget c xs) + (if c == d then 1 else 0) ≡ count d xs
unfolding forget
count-forget c d [] h = absurd (omega arith)
count-forget c d (x ∷ xs) h = elim (Bool-cases (x == c)) [
  | inl e ↦ ground arith
  | inr e ↦ ground (arith, count-forget c d xs)
]

length-forget : (c : ℕ) (xs : List ℕ) → 0 < count c xs → suc (length (forget c xs)) ≡ length xs
unfolding forget
length-forget c [] h = absurd (omega arith)
length-forget c (x ∷ xs) h = elim (Bool-cases (x == c)) [
  | inl e ↦ ground arith
  | inr e ↦ ground (arith, length-forget c xs)
]

module _ (config : Config) (env : Env) (w : World) where
  connect-SameNames : SameNames (register w).0 (connect config env w).0
  unfolding connect send_welcome send
  connect-SameNames = record {
    registry = ground arith;
    next = ground arith;
    names = λ d. ground arith;
  }

  connections-register : connections (register w).0 ≡ connections w
  unfolding register
  connections-register = refl

  pub connect_cases :
      (((connect config env w).1 ≡ none) × (connections (connect config env w).0 ≡ connections w))
      ⊎ (((connect config env w).1 ≡ some w.next)
          × (connections (connect config env w).0 ≡ inc (connections w)))
  unfolding connect send_welcome send register
  connect_cases = elim (Bool-cases config.send_welcome_message) [
    | inl e ↦ elim (Bool-cases env.link) [
      | inl l ↦ inr (ground arith, ground arith)
      | inr l ↦ inl (ground arith, ground arith)
    ]
    | inr e ↦ inr (ground arith, ground arith)
  ]

module _ (w : World) (c : ℕ) where
  pub disconnect-SameNames : SameNames (deregister w c).0 (disconnect w c)
  unfolding disconnect
  disconnect-SameNames = record { registry = refl; next = refl; names = λ d. refl }

  connections-disconnect : connections (disconnect w c) ≡ dec (connections w)
  unfolding disconnect deregister
  connections-disconnect = ground arith

pub joined_none :
    (s : Server) (p : World × Option ℕ) → p.1 ≡ none → joined s p ≡ record s { world = p.0 }
joined_none s (w, none) e = refl
joined_none s (w, some c) e = cc

pub joined_some :
    (s : Server) (p : World × Option ℕ) (c : ℕ)
    → p.1 ≡ some c
    → joined s p ≡ record { world = p.0; active = c ∷ s.active }
joined_some s (w, none) c e = cc
joined_some s (w, some d) c e = ground arith

module _ (s : Server) (v : ServerInv s) where
  idle : (c : ℕ) → s.world.next ≤ c → count c s.active ≡ 0
  idle c h = ground (arith, v.registered c, v.inv.allocated c)

  module _ (config : Config) (env : Env) where
    connect-Inv : Inv (connect config env s.world).0
    connect-Inv = SameNames-Inv (connect-SameNames config env s.world) (register-Inv s.world v.inv)

    view-connect : view (connect config env s.world).0 ≡ view s.world
    view-connect = view_same (connect-SameNames config env s.world) ∙ register_refines s.world v.inv

    pub connect_clients :
        (c : ℕ)
        → count c (connect config env s.world).0.registry.clients
          ≡ count c s.world.registry.clients + (if s.world.next == c then 1 else 0)
    connect_clients c =
        ap (λ r. count c r.clients) (connect-SameNames config env s.world).registry
        ∙ count-register s.world c

    connects-ServerInv : ServerInv (joined s (connect config env s.world))
    connects-ServerInv = elim (connect_cases config env s.world) [
      | inl (e, k) ↦ rw (joined_none s (connect config env s.world) e) (record {
        inv = connect-Inv;
        registered = λ c. ground (arith, connect_clients c, v.registered c);
        owners = λ h c p. v.owners h c (ap (λ f. f h) (sym view-connect) ∙ p);
        counted = ap (λ m. m.count) k ∙ v.counted;
      })
      | inr (e, k) ↦ rw (joined_some s (connect config env s.world) s.world.next e) (record {
        inv = connect-Inv;
        registered = λ c. ground (arith, connect_clients c, v.registered c);
        owners = λ h c p. ground (arith, v.owners h c (ap (λ f. f h) (sym view-connect) ∙ p));
        counted = ap (λ m. m.count) k ∙ unfold inc in ground (arith, v.counted);
      })
    ]

pub leave-some :
    (c : ℕ) (o : Owners) (h : Text) (d : ℕ)
    → leave c o h ≡ some d
    → (o h ≡ some d) × ((d == c) ≡ false)
leave-some c o h d e = ground arith

-- What the end of a connection needs of the state before it.
module _ (w : World) (active : List ℕ) (c : ℕ)
    (v : ServerInv (record { world = w; active = active })) (here : 0 < count c active) where
  leaves-ServerInv : ServerInv (record { world = disconnect w c; active = forget c active })
  leaves-ServerInv =
      let r : IsRegistered w c = omega (arith, v.registered c) in
      record {
        inv = SameNames-Inv (disconnect-SameNames w c) (deregister-Inv w c v.inv);
        registered = λ d.
            let clients = ap (λ r. count d r.clients) (disconnect-SameNames w c).registry in
            ground (
              arith,
              clients,
              count-deregister w c d r,
              count-forget c d active here,
              v.registered d,
            );
        owners = λ h d p.
            let owners = view_same (disconnect-SameNames w c) ∙ deregister_refines w c v.inv r in
            let (before, other) = leave-some c (view w) h d (ap (λ f. f h) (sym owners) ∙ p) in
            ground (arith, v.owners h d before, count-forget c d active here);
        counted =
            ap (λ m. m.count) (connections-disconnect w c)
            ∙ unfold dec in ap pred_ℤ (v.counted ∙ ap pos (sym (length-forget c active here)));
      }

pub after-ServerInv :
    (s : Server) (c : ℕ) (p : World × Result Error (Unit {0}))
    → ServerInv (record s { world = p.0 })
    → 0 < count c s.active
    → ServerInv (after s c p)
after-ServerInv s c (w, ok _) v here = v
after-ServerInv s c (w, err _) v here = leaves-ServerInv w s.active c v here

module _ (lower : Lowercase) (net : Net) (config : Config) where
  handled-ServerInv :
      (s : Server) (env : Env) (c : ℕ) (m : Option Message)
      → ServerInv s
      → 0 < count c s.active
      → ServerInv (record s { world = (msg lower net config.hostnames env s.world c m).0 })
  handled-ServerInv s env c m v here =
      let r : IsRegistered s.world c = omega (arith, v.registered c) in
      let (inv, clients) = msg-Inv lower net config.hostnames env s.world c m v.inv r in
      record {
        inv = inv;
        registered = λ d. rw clients (v.registered d);
        owners = λ h d p.
            elim (msg-OnlyFor lower net config.hostnames env s.world c m v.inv r h d p) [
              | inl before ↦ v.owners h d before
              | inr same ↦ rw same here
            ];
        counted =
            ap (λ n. n.count) (connections-msg env s.world c lower net config.hostnames m)
            ∙ v.counted;
      }

  -- Every turn of the server keeps its invariant: a new connection, whether or not it is welcomed, a
  -- message of any kind, handled or failed, and the end of a connection.
  pub Step-ServerInv : {s t : Server} → Step lower net config s t → ServerInv s → ServerInv t
  Step-ServerInv {s} (connects env) v = connects-ServerInv s v config env
  Step-ServerInv {s} (handles env c m here) v =
      after-ServerInv s c _ (handled-ServerInv s env c m v here) here
  Step-ServerInv {s} (ends c here) v = leaves-ServerInv s.world s.active c v here
