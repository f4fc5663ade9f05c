-- ===== src/Examples/Regions.antt =====
-- The memory region manager at concrete inputs.
use nanomsg_transport_ofi.Prelude.{
  update, ebusy, ℕ, ◌+◌, ◌≡◌, refl, true, false, none, some, List, [], ◌∷◌, pos, negsuc, arith,
  ◌==◌,
}
use nanomsg_transport_ofi.Mr.State.{send, Bank, Provider, Mr}
use nanomsg_transport_ofi.Mr.Bank.{find_bank, register, unregister}
use nanomsg_transport_ofi.Mr.Bank.Find.{
  Resolves, find_bank-Resolves, Untouched, find_bank-Untouched,
}
use nanomsg_transport_ofi.Mr.Slab.{try_slab}
use nanomsg_transport_ofi.Mr.Setup.{init, invalidate}
use nanomsg_transport_ofi.Mr.Setup.Start.{Started, init-Started}
use nanomsg_transport_ofi.Mr.Setup.Invalidate.{Invalidates, invalidate-Invalidates}
use nanomsg_transport_ofi.Mr.Context.{Iov, release, describe}
use nanomsg_transport_ofi.Mr.Context.Balance.{Restored, release-describe, describe_failed}
use nanomsg_transport_ofi.Mr.Context.Intact.{region, region-describe}
use nanomsg_transport_ofi.Mr.Context.Bytes.{describe_bytes}

-- A provider that numbers its regions and always succeeds.
abbrev counting : Provider ℕ
counting = record {
  fi_mr_reg = λ n base len access key. (pos 0, n, n + 1);
  fi_close = λ n mr. (pos 0, n);
  fi_mr_desc = λ mr. mr + 100;
}

-- A provider that refuses every registration with -12.
abbrev refusing : Provider ℕ
refusing = record {
  fi_mr_reg = λ n base len access key. (negsuc 11, 0, n);
  fi_close = λ n mr. (pos 0, n);
  fi_mr_desc = λ mr. mr + 100;
}

abbrev blank_bank : Bank
blank_bank = record {
  ref = pos 0;
  base = 0;
  len = 0;
  mr = 0;
  age = 0;
  nonvolatile = false;
  registered = false;
}

abbrev blank : Mr ℕ
blank = record {
  env = 1;
  mem = λ a. a;
  allocated = 0;
  attr = record { bank_count = 2; slab_count = 2; slab_size = 64; direction = send; base_key = 1 };
  banks = λ i. blank_bank;
  held = λ i. pos 0;
  access_flags = [];
  age = 0;
  slab_held = pos 0;
  slabs = λ i. record { addr = 0; inuse = false };
  slab_mr = 0;
  slab_mem = none;
}

abbrev started : Mr ℕ
started = (init counting blank blank.attr 5000).1

abbrev packet : List Iov
packet =
    record { iov_base = 1000; iov_len = 20 }
    ∷ record { iov_base = 2000; iov_len = 300 }
    ∷ record { iov_base = 0; iov_len = 0 }
    ∷ []

packet_handle :
    (describe counting started packet).handle
    ≡ some
        (record { descriptors = some 101 ∷ some 102 ∷ none ∷ []; banks = 0 ∷ []; slabs = 0 ∷ [] })
unfolding describe init find_bank try_slab register unregister
packet_handle = refl

find_bank-Resolves_example :
    Resolves counting started 2000 300 (find_bank counting started 2000 300)
find_bank-Resolves_example = find_bank-Resolves counting started 2000 300

find_bank-Untouched_example : Untouched started (find_bank counting started 2000 300).1
find_bank-Untouched_example = find_bank-Untouched counting started 2000 300

-- The bank is evicted for the second region, and loses the range that it was given.
one_bank : Mr ℕ
one_bank =
    (find_bank counting (record started { attr = record blank.attr { bank_count = 1 } }) 2000 300).1

evicted_empty :
    let b = (find_bank counting one_bank 9000 300).1.banks 0 in
    (b.registered ≡ true) × (b.base ≡ 0) × (b.len ≡ 0)
unfolding one_bank init find_bank try_slab register unregister
evicted_empty = (refl, refl, refl)

abbrev in_use : Mr ℕ
in_use = record one_bank {
  banks = update one_bank.banks 0 (record (one_bank.banks 0) { ref = pos 1 });
}

init-Started_example : Started blank.attr 5000 started
init-Started_example = init-Started counting blank blank.attr 5000

-- The region touches the one bank, which is registered and not in use.
invalidate-Invalidates_example :
    Invalidates counting 2100 10 one_bank (invalidate counting one_bank 2100 10)
invalidate-Invalidates_example = invalidate-Invalidates counting one_bank 2100 10

-- The bank is cleared, unless it is in use.
invalidated :
    ((invalidate counting one_bank 2100 10).0 ≡ pos 0)
    × (((invalidate counting one_bank 2100 10).1.banks 0).registered ≡ false)
    × ((invalidate counting in_use 2100 10).0 ≡ ebusy)
unfolding one_bank init find_bank try_slab register unregister invalidate
invalidated = (refl, refl, refl)

release-describe_example : Restored 0 started (
    release
      (record { descriptors = some 101 ∷ some 102 ∷ none ∷ []; banks = 0 ∷ []; slabs = 0 ∷ [] })
      (describe counting started packet).state)
release-describe_example = release-describe counting started packet _ packet_handle

refused_handle : (describe refusing started packet).handle ≡ none
unfolding describe init find_bank try_slab register unregister
refused_handle = refl

describe_failed_example : Restored 2 started (describe refusing started packet).state
describe_failed_example = describe_failed refusing started packet refused_handle

-- Bank 0 and slab 0 are in use by the first packet.
busy : Mr ℕ
busy = (describe counting started packet).state

region-describe_example :
    region ((describe counting busy packet).state.banks 0) ≡ region (busy.banks 0)
unfolding busy describe init find_bank try_slab register unregister
region-describe_example = region-describe counting busy packet 0 refl

-- The manager with slab 0 in use.
abbrev filled : Mr ℕ
filled = record started { slabs = λ i. record { addr = (started.slabs i).addr; inuse = i == 0 } }

describe_bytes_example : (describe counting filled packet).state.mem 5003 ≡ filled.mem 5003
unfolding init
describe_bytes_example =
    describe_bytes counting filled packet 0 3 (init-Started counting blank blank.attr 5000).disjoint
      (omega arith) (omega arith) refl
