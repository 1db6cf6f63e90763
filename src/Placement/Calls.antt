-- ===== src/Placement/Calls.antt =====
-- The calls of src/cbb/burst_buffer_client.cc, and how they are put together, keep the placement.
use cbb.Prelude.{
  ap, ◌⊎◌, ◌∙◌, sym, ℕ, ◌≡◌, refl, arith, Bool, true, false, List, [], ◌∷◌, Option, none, some,
  if◌then◌else◌, Option-cases, inl, inr, Bool-cases,
}
use cbb.Text.{Bytes}
use cbb.Text.Find.{eqb_iff}
use cbb.Posix.{Posix}
use cbb.Manager.{is_buffered}
use cbb.Common.{Error}
use cbb.Server.{Server}
use cbb.SelectServer.{SelectServer, ServerInfo, get_info}
use cbb.Client.{
  Ended, raised, aborted, blocked, Request, Network, Client, M, to_u16, pure, ◌>>=◌, ended,
  retry_loop, client_call, get_burst_buffer, call_at, call_each, call_all, code_at,
}
use cbb.Dispatch.Handlers.{Junk, dispatch}
use cbb.System.{Delivers, is_at}
use cbb.Placement.{Isolates, IsHome, IsPlaced, KeepsPlaces}
use cbb.Placement.Tables.{may_open, is_buffered-dispatch}

module _ (P : Posix) (fuel : ℕ) (junk : Junk) (N : Network)
    (server_at : N.World → Bytes → ℕ → Option (Server P)) (D : Delivers P fuel junk N server_at)
    (I : Isolates P N server_at) where
  -- A request that may open a path goes to the server of this path.
  abbrev IsRouted : SelectServer → Bytes → ℕ → Request → Type 0
  IsRouted servers host port req =
      (q : Bytes) → may_open req.method req.params q ≡ true → IsHome servers q host port

  answer-IsHome :
      (servers : SelectServer) (host : Bytes) (port : ℕ) (req : Request) (w : N.World)
      (v : Server P) (q : Bytes)
      → IsRouted servers host port req
      → IsPlaced P N server_at servers w
      → server_at w host port ≡ some v
      → is_buffered (dispatch P fuel junk req v).1.md_manager q ≡ true
      → IsHome servers q host port
  answer-IsHome servers host port req w v q routed placed e opened =
      let before = is_buffered-dispatch P fuel junk req.method req.params v q opened in
      elim (Bool-cases (may_open req.method req.params q)) [
        | inl may ↦ routed q may
        | inr not_may ↦ placed host port v q e (ground arith)
      ]

  send-IsPlaced :
      (servers : SelectServer) (host : Bytes) (port : ℕ) (req : Request) (w : N.World)
      → IsRouted servers host port req
      → IsPlaced P N server_at servers w
      → IsPlaced P N server_at servers (N.send host port req w).1
  send-IsPlaced servers host port req w routed placed host' port' v' q at' open' =
      elim (Option-cases (server_at w host port)) [
        | inl e ↦
            placed host' port' v' q
              (sym (I.server_at-send_none host host' port port' req w e) ∙ at') open'
        | inr (v, e) ↦
            let moved = D.server_at-send host host' port port' req w v e in
            elim (Bool-cases (is_at host port host' port')) [
              | inl here ↦
                  let same_host : host' ≡ host = ground (arith, eqb_iff host' host) in
                  let same_port : port' ≡ port = ground (arith, eqb_iff host' host) in
                  let is : some (dispatch P fuel junk req v).1 ≡ some v' = ground arith in
                  rw (same_host, same_port)
                    (answer-IsHome servers host port req w v q routed placed e (ground arith))
              | inr other ↦ placed host' port' v' q (ground arith) open'
            ]
      ]

  client_call_world :
      (host : Bytes) (port : ℕ) (req : Request) (c : Client N)
      → ((client_call N host port req c).1.world ≡ c.world)
        ⊎ ((client_call N host port req c).1.world ≡ (N.send host port req c.world).1)
  unfolding client_call retry_loop
  client_call_world host port req c = ground arith

  client_call_selects :
      (host : Bytes) (port : ℕ) (req : Request) (c : Client N)
      → (client_call N host port req c).1.select_server ≡ c.select_server
  unfolding client_call retry_loop
  client_call_selects host port req c = ground arith

  pub client_call_places :
      (servers : SelectServer) (host : Bytes) (port : ℕ) (req : Request) (c : Client N)
      → IsRouted servers host port req
      → IsPlaced P N server_at servers c.world
      → IsPlaced P N server_at servers (client_call N host port req c).1.world
  client_call_places servers host port req c routed placed =
      elim (client_call_world host port req c) [
        | inl e ↦ rw e placed
        | inr e ↦ rw e (send-IsPlaced servers host port req c.world routed placed)
      ]

  -- The requests that open no path.
  abbrev pub OpensNone : Request → Type 0
  OpensNone req = (q : Bytes) → may_open req.method req.params q ≡ false

  pub client_call-KeepsPlaces :
      (host : Bytes) (port : ℕ) (req : Request)
      → OpensNone req
      → KeepsPlaces P N server_at (client_call N host port req)
  client_call-KeepsPlaces host port req none_open = record {
    selects = client_call_selects host port req;
    places = λ servers c h.
        client_call_places servers host port req c (λ q may. ground (arith, none_open q));
  }

  pub pure-KeepsPlaces : {A : Type 0} (a : A) → KeepsPlaces P N server_at (pure a)
  pure-KeepsPlaces a = record { selects = λ c. refl; places = λ servers c h placed. placed }

  abbrev continue : {A B : Type 0} → (A → M N B) → Ended A → M N B
  continue f r c = elim r [
    | ended a ↦ f a c
    | raised ↦ (raised, c)
    | aborted ↦ (aborted, c)
    | blocked ↦ (blocked, c)
  ]

  -- Where a sequence ends: with its first part, or with the second.
  continue_ends :
      {A B : Type 0} (f : A → M N B) (r : Ended A) (c : Client N)
      → ((continue f r c).1 ≡ c) ⊎ ((a : A) × ((continue f r c).1 ≡ (f a c).1))
  continue_ends f (ended a) c = inr (a, refl)
  continue_ends f raised c = inl refl
  continue_ends f aborted c = inl refl
  continue_ends f blocked c = inl refl

  bind_ends :
      {A B : Type 0} (m : M N A) (f : A → M N B) (c : Client N)
      → (((m >>= f) c).1 ≡ (m c).1) ⊎ ((a : A) × (((m >>= f) c).1 ≡ (f a (m c).1).1))
  bind_ends m f c = continue_ends f (m c).0 (m c).1

  pub bind-KeepsPlaces :
      {A B : Type 0} (m : M N A) (f : A → M N B)
      → KeepsPlaces P N server_at m
      → ((a : A) → KeepsPlaces P N server_at (f a))
      → KeepsPlaces P N server_at (m >>= f)
  bind-KeepsPlaces m f k l = record {
    selects = λ c. elim (bind_ends m f c) [
      | inl e ↦ ap (λ d. d.select_server) e ∙ k.selects c
      | inr (a, e) ↦ ap (λ d. d.select_server) e ∙ (l a).selects (m c).1 ∙ k.selects c
    ];
    places = λ servers c h placed. elim (bind_ends m f c) [
      | inl e ↦ rw e (k.places servers c h placed)
      | inr (a, e) ↦
          rw e ((l a).places servers (m c).1 (k.selects c ∙ h) (k.places servers c h placed))
    ];
  }

  -- An operation that leaves the client as another one does.
  pub same-KeepsPlaces :
      {A B : Type 0} (m : M N A) (n : M N B)
      → ((c : Client N) → (m c).1 ≡ (n c).1)
      → KeepsPlaces P N server_at n
      → KeepsPlaces P N server_at m
  same-KeepsPlaces m n same k = record {
    selects = λ c. rw (same c) (k.selects c);
    places = λ servers c h placed. rw (same c) (k.places servers c h placed);
  }

  pub if-KeepsPlaces :
      {A : Type 0} (b : Bool) (m n : M N A)
      → KeepsPlaces P N server_at m
      → KeepsPlaces P N server_at n
      → KeepsPlaces P N server_at (if b then m else n)
  if-KeepsPlaces true m n k l = k
  if-KeepsPlaces false m n k l = l

  call_at-none :
      (path : Bytes) (req : Request) (c : Client N)
      → get_info c.select_server path ≡ none
      → (call_at N path req c).1 ≡ c
  unfolding call_at get_burst_buffer
  call_at-none path req c e = ground (arith, e)

  call_at-some :
      (path : Bytes) (req : Request) (c : Client N) (info : ServerInfo)
      → get_info c.select_server path ≡ some info
      → (call_at N path req c).1 ≡ (client_call N info.host (to_u16 info.port) req c).1
  unfolding call_at get_burst_buffer
  call_at-some path req c info e = ground (arith, e)

  -- One call to the server of a path, which may open this path only.
  pub call_at-KeepsPlaces :
      (path : Bytes) (req : Request)
      → ((q : Bytes) → may_open req.method req.params q ≡ true → q ≡ path)
      → KeepsPlaces P N server_at (call_at N path req)
  call_at-KeepsPlaces path req only = record {
    selects = λ c. elim (Option-cases (get_info c.select_server path)) [
      | inl e ↦ rw (call_at-none path req c e) refl
      | inr (info, e) ↦
          rw (call_at-some path req c info e)
            (client_call_selects info.host (to_u16 info.port) req c)
    ];
    places = λ servers c h placed. elim (Option-cases (get_info c.select_server path)) [
      | inl e ↦ rw (call_at-none path req c e) placed
      | inr (info, e) ↦ rw (call_at-some path req c info e) (
          client_call_places servers info.host (to_u16 info.port) req c
            (λ q may. (
              info,
              ap (λ p. get_info servers p) (only q may) ∙ sym (ap (λ s. get_info s path) h) ∙ e,
              refl,
              refl,
            ))
            placed)
    ];
  }

  pub quiet_call_at-KeepsPlaces :
      (path : Bytes) (req : Request)
      → OpensNone req
      → KeepsPlaces P N server_at (call_at N path req)
  quiet_call_at-KeepsPlaces path req none_open =
      call_at-KeepsPlaces path req (λ q may. ground (arith, none_open q))

  pub code_at-KeepsPlaces :
      (path : Bytes) (req : Request)
      → OpensNone req
      → KeepsPlaces P N server_at (code_at N path req)
  unfolding code_at
  code_at-KeepsPlaces path req none_open =
      bind-KeepsPlaces _ _ (quiet_call_at-KeepsPlaces path req none_open)
        (λ r. pure-KeepsPlaces r.code)

  pub call_each-KeepsPlaces :
      (infos : List ServerInfo) (req : Request) (error : Error)
      → OpensNone req
      → KeepsPlaces P N server_at (call_each N infos req error)
  unfolding call_each
  call_each-KeepsPlaces [] req error none_open = pure-KeepsPlaces error
  call_each-KeepsPlaces (info ∷ infos) req error none_open =
      bind-KeepsPlaces _ _ (client_call-KeepsPlaces info.host (to_u16 info.port) req none_open)
        (λ r. call_each-KeepsPlaces infos req r.code none_open)

  pub call_all-KeepsPlaces :
      (req : Request) (error : Error)
      → OpensNone req
      → KeepsPlaces P N server_at (call_all N req error)
  unfolding call_all
  call_all-KeepsPlaces req error none_open = record {
    selects =
        λ c. (call_each-KeepsPlaces c.select_server.server_list req error none_open).selects c;
    places = λ servers c h placed.
        (call_each-KeepsPlaces c.select_server.server_list req error none_open).places servers c h
          placed;
  }
