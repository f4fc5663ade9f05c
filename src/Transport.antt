-- ===== src/Transport.antt =====
-- The functions by which nanomsg makes and destroys endpoints (src/transports/ofi/ofi.c, and the constructors
-- and destructors of src/transports/ofi/cofi.c and src/transports/ofi/bofi.c), and the global resources
-- (src/transports/ofi/ofiapi.c).
pub mod Fabrics
pub mod Lasting
pub mod Refusing
use nanomsg_transport_ofi.Prelude.{
  ℕ, Bool, true, false, Option, none, some, List, [], ℤ, pos, is_zero, if◌then◌else◌,
}
use nanomsg_transport_ofi.Address.{Text, FabricAttr, Query, Hinted, match_fabric}
use nanomsg_transport_ofi.Resources
use nanomsg_transport_ofi.Resources.{
  Resources, Opened, fabric_open, domain_open, domain_close, term_from,
}
use nanomsg_transport_ofi.Bofi.Offsets
use nanomsg_transport_ofi.Bofi.Machine
use nanomsg_transport_ofi.Bofi.Machine.Handler
use nanomsg_transport_ofi.Cofi

-- What the constructors and destructors call in nanomsg, and for the worker.
pub record Core (S : Type 0) : Type 0 where
  pub epbase_init : S → S
  pub epbase_term : S → S
  pub fsm_init : S → S
  pub fsm_term : S → S
  pub backoff_init : S → S
  pub backoff_term : S → S
  pub getworker : S → S
  pub worker_term : S → S

-- What `ofi_fabric_open` and `ofi_domain_open` call, but for `ofi_match_fabric`.
pub record Network (S : Type 0) : Type 0 where
  pub fi_getinfo : Query → S → (ℤ × Option ℕ) × S
  pub fi_fabric : S → ℤ × S
  pub pool_init : S → ℤ × S
  pub fi_domain : S → ℤ × S
  pub close_domain : ℕ → S → S
  pub pool_term : S → S

-- An endpoint: its fabric, its domain, and what its machine does on its start.
pub record Endpoint (O : Type 0) : Type 0 where
  pub fabric : ℕ
  pub domain : ℕ
  pub machine : O

-- What a constructor returns.
pub record Created (O S : Type 0) : Type 0 where
  pub ret : ℤ
  pub endpoint : Option (Endpoint O)
  pub resources : Resources S

-- What `ofi_init` returns; the resources, if the hints were allocated.
pub record Initialised (S : Type 0) : Type 0 where
  pub ret : ℕ
  pub resources : Option (Resources (Hinted S))

-- `ofi_init`, with what `fi_allocinfo` gave: the fabric attributes of the hints, or nothing
unfoldable pub ofi_init : {S : Type 0} → Option (Option FabricAttr) → S → Initialised S
ofi_init none w = record { ret = 255; resources = none }
ofi_init (some attr) w = record {
  ret = 0;
  resources =
      some
        (record { fabrics = []; world = record { fabric_attr = attr; buffers = []; world = w } });
}

module _ {S : Type 0} where
  abbrev pub with_world : Resources S → S → Resources S
  with_world r w = record r { world = w }

  abbrev pub not_made : (O : Type 0) → ℤ → Resources S → Created O S
  not_made O ret r = record { ret = ret; endpoint = none; resources = r }

  -- The endpoint with its machine `m`, or the end of what was begun, if the domain did not open.
  abbrev pub domain_made : (O : Type 0) → O → (S → S) → ℕ → ℕ → Opened S → Created O S
  domain_made O m undo f d o =
      if is_zero o.ret
      then record {
        ret = pos 0;
        endpoint = some (record { fabric = f; domain = d; machine = m });
        resources = o.resources;
      }
      else not_made O o.ret (with_world o.resources (undo o.resources.world))

  abbrev pub hinted : (S → ℤ × S) → Hinted S → ℤ × Hinted S
  hinted f st = let (ret, w) = f st.world in (ret, record st { world = w })

  -- `ofi_match_fabric` for the address `t`, whose copy is at `b`
  abbrev pub matched_with : Network S → ℕ → Text → Bool → Hinted S → ℤ × Hinted S
  matched_with net b t local st =
      let m = match_fabric net.fi_getinfo b t local st in (m.ret, m.state)

  unfoldable pub calls : Network S → ℕ → Text → Bool → Resources.Parts (Hinted S)
  unfolding match_fabric
  calls net b t local = record {
    match_fabric = matched_with net b t local;
    fi_fabric = hinted net.fi_fabric;
    pool_init = hinted net.pool_init;
    fi_domain = hinted net.fi_domain;
    close_domain = λ d st. record st { world = net.close_domain d st.world };
    pool_term = λ st. record st { world = net.pool_term st.world };
  }

  -- The loop of `ofi_term`, and then the fabric attributes of the hints, which are freed.
  unfoldable pub ofi_term :
      Resources.Parts (Hinted S) → ℕ → Resources (Hinted S) → Resources (Hinted S)
  ofi_term parts k r =
      let t = term_from parts k r r.fabrics in
      record t { world = record t.world { fabric_attr = none } }

module _ {S : Type 0} (parts : Resources.Parts S) (core : Core S) where
  open core use {
    epbase_init, epbase_term, fsm_init, fsm_term, backoff_init, backoff_term, getworker,
    worker_term,
  }

  module _ (machine : Cofi.Parts S) where
    abbrev pub cofi_opened : ℕ → ℕ → Opened S → Created (Cofi.Outcome S) S
    cofi_opened f d o =
        let w = backoff_init (fsm_init o.resources.world) in
        let m =
          Cofi.handler machine (record { state = Cofi.idle; world = w }) Cofi.fsm_action
            Cofi.start in
        domain_made (Cofi.Outcome S) m epbase_term f d o

    -- `nn_cofi_create` on the fabric `f`, with the domain at `d`
    unfoldable pub cofi_create : ℕ → ℕ → Resources S → Created (Cofi.Outcome S) S
    unfolding domain_open Cofi.handler
    cofi_create f d r = cofi_opened f d (domain_open parts (with_world r (epbase_init r.world)) f d)

  -- `nn_cofi_destroy`
  unfoldable pub cofi_destroy : ℕ → ℕ → Resources S → Resources S
  unfolding domain_close
  cofi_destroy f d r =
      let t = domain_close parts (with_world r (backoff_term r.world)) f d in
      with_world t (epbase_term (fsm_term t.world))

  module _ (machine : Machine.Parts S) (memory : ℕ → Bool) (src : Machine.Sofi) where
    abbrev pub bofi_opened : ℕ → ℕ → Opened S → Created (Machine.Outcome S) S
    bofi_opened f d o =
        let b : Machine.Bofi S = record {
          state = Machine.idle;
          pep = Machine.null;
          offsets = Offsets.create memory;
          sofis = [];
          world = fsm_init (getworker o.resources.world);
        } in
        let m = Handler.handler machine b Machine.fsm_action Machine.start src in
        domain_made (Machine.Outcome S) m epbase_term f d o

    -- `nn_bofi_create`; `memory` is what the array of offsets held before, and `src` what
    -- `srcptr` points to, which the start does not read
    unfoldable pub bofi_create : ℕ → ℕ → Resources S → Created (Machine.Outcome S) S
    unfolding domain_open Offsets.create Handler.handler
    bofi_create f d r = bofi_opened f d (domain_open parts (with_world r (epbase_init r.world)) f d)

  -- `nn_bofi_destroy`
  unfoldable pub bofi_destroy : ℕ → ℕ → Resources S → Resources S
  unfolding domain_close
  bofi_destroy f d r = let t = domain_close parts r f d in with_world t (worker_term t.world)

module _ {S : Type 0} (net : Network S) (core : Core (Hinted S)) where
  -- `nn_ofi_connect` to the address `t`, with its copy at `b` and the structures at `a` and `d`
  unfoldable pub connect :
      Cofi.Parts (Hinted S)
      → ℕ
      → Text
      → ℕ
      → ℕ
      → Resources (Hinted S)
      → Created (Cofi.Outcome (Hinted S)) (Hinted S)
  unfolding calls fabric_open cofi_create
  connect machine b t a d r =
      let parts = calls net b t false in
      let o = fabric_open parts r a in
      if is_zero o.ret
      then cofi_create parts core machine a d o.resources
      else not_made (Cofi.Outcome (Hinted S)) o.ret o.resources

  -- `nn_ofi_bind`
  unfoldable pub bind :
      Machine.Parts (Hinted S)
      → (ℕ → Bool)
      → Machine.Sofi
      → ℕ
      → Text
      → ℕ
      → ℕ
      → Resources (Hinted S)
      → Created (Machine.Outcome (Hinted S)) (Hinted S)
  unfolding calls fabric_open bofi_create
  bind machine memory src b t a d r =
      let parts = calls net b t true in
      let o = fabric_open parts r a in
      if is_zero o.ret
      then bofi_create parts core machine memory src a d o.resources
      else not_made (Machine.Outcome (Hinted S)) o.ret o.resources

-- `nn_cofi_stop`: `nn_fsm_stop` calls the shutdown function at once.
unfoldable pub cofi_stop : {S : Type 0} → Cofi.Parts S → Cofi.Cofi S → Cofi.Outcome S
unfolding Cofi.shutdown
cofi_stop machine c = Cofi.shutdown machine c Cofi.fsm_action Cofi.stop

-- `nn_bofi_stop`
unfoldable pub bofi_stop :
    {S : Type 0} → Machine.Parts S → Machine.Sofi → Machine.Bofi S → Machine.Outcome S
unfolding Handler.shutdown
bofi_stop machine src b = Handler.shutdown machine b Machine.fsm_action Machine.stop src
