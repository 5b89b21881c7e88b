-- ===== src/Net/Pool/Reach.antt =====
-- The operations on networks and addresses in any order. `randomUUID` gives an id that nothing has.
use virt_pilot.Common.{
  ℕ, ◌≡◌, sym, ap, ◌∙◌, subst, Bool, true, false, Option, none, some, List, [], ◌∷◌, ◌++◌, ◌&&◌,
  keep, Bool-cases, arith, refl, if◌then◌else◌, String,
}
use virt_pilot.Net.Cidr.{Ip, Cidr}
use virt_pilot.Net.Pool.Store.{
  Address, Network, Hold, Pool, IpAllocation, read_networks, network_of, allocate_specific_ip,
  deallocate_vm_ips, deallocate_by_mac, drop_allocations_of_missing_vms,
}
use virt_pilot.Net.Pool.Create.{GivenGateway, create_nat_network}
use virt_pilot.Net.Pool.Delete.{
  has_rows, hold_networks, delete_network, delete_known, delete_bridge, delete_if_free,
  without_network, release_settled, needs_no_vms, arriving_on, is_nil, refused,
}
use virt_pilot.Net.Pool.Made.{create_nat_network-snoc}
use virt_pilot.Net.Pool.Unique.{
  Distinct, Distinct-keep, AllFit, AllFit-keep, allocate_specific_ip-Distinct,
  allocate_specific_ip-AllFit,
}
use virt_pilot.Net.Pool.Lookup.{AllFit-without, AllFit-snoc}

abbrev pub empty_pool : Pool
empty_pool = record { networks = []; allocations = []; arriving = [] }

-- What an operation reads of the networks, when their file can be read and when not.
abbrev pub seen : Bool → Pool → List Network
seen readable p = read_networks (if readable then some p.networks else none)

module _ (show : Ip → String) (name_bridge : ℕ → String) (libvirt_name_for : String → String) where
  -- A step of the stores; the index is false for an address that is given out without a look at the networks.
  pub data Step : Bool → Pool → Pool → Type 0 where
    allocates :
        (readable : Bool) (p : Pool) (network_id vm_uuid mac : String) (a : Option Address)
        (is_in_use : Bool) (now : ℕ)
        → Step readable p (record p {
          allocations =
              (allocate_specific_ip
                (seen readable p)
                network_id
                vm_uuid
                mac
                a
                is_in_use
                now
                p.allocations).rows;
        })
    frees_vm :
        (p : Pool) (vm_uuid : String)
        → Step true p (record p { allocations = deallocate_vm_ips vm_uuid p.allocations })
    frees_mac :
        (p : Pool) (mac : String)
        → Step true p (record p { allocations = deallocate_by_mac mac p.allocations })
    drops :
        (p : Pool) (is_missing : String → Bool) (started : ℕ)
        → Step true p (record p {
          allocations = drop_allocations_of_missing_vms is_missing started p.allocations;
        })
    creates :
        (readable : Bool) (p : Pool) (id : String) (c : Option Cidr) (gateway : GivenGateway)
        (defined : Bool) (networks : List Network)
        → has_rows id p.allocations ≡ false
        → create_nat_network show name_bridge libvirt_name_for id c gateway defined
            (seen readable p)
          ≡ some networks
        → Step true p (record p { networks = networks })
    -- A network of another kind, with any pool.
    adds :
        (readable : Bool) (p : Pool) (n : Network)
        → has_rows n.id p.allocations ≡ false
        → Step true p (record p { networks = seen readable p ++ n ∷ [] })
    -- A file of addresses that is not JSON is set aside.
    forgets : (p : Pool) → Step true p (record p { allocations = [] })
    holds :
        (p : Pool) (networks : List String) (vm : String)
        → Step true p (hold_networks networks vm p)
    lets_go :
        (p : Pool) (before after : List Hold) (h : Hold)
        → p.arriving ≡ before ++ (h ∷ after)
        → Step true p (record p { arriving = before ++ after })
    deletes :
        (p : Pool) (id : String) (connected : Option Bool) (now : ℕ)
        → Step true p (delete_network id connected now p).pool

  pub data Reached : Bool → Pool → Type 0 where
    empty : Reached true empty_pool
    next : {a b : Bool} {p q : Pool} → Reached a p → Step b p q → Reached (a && b) q

-- No address of a network is given out twice, by its text, and if the networks could be read for every address that
-- was given out, each is one that its network can give out.
pub record IsTidy (all_read : Bool) (p : Pool) : Type 0 where
  pub distinct : Distinct p.allocations
  pub fitting : all_read ≡ true → AllFit p.networks p.allocations

AllFit-seen :
    (readable : Bool) (p : Pool)
    → AllFit p.networks p.allocations
    → AllFit (seen readable p) p.allocations
unfolding network_of
AllFit-seen true p h = h
AllFit-seen false p h = fits_nowhere p.allocations
  where
    fits_nowhere : (rows : List IpAllocation) → AllFit [] rows
    fits_nowhere [] = tt
    fits_nowhere (r ∷ rows) = (tt, fits_nowhere rows)

delete_if_free-IsTidy :
    {r : Bool} (id : String) (p : Pool) → IsTidy r p → IsTidy r (delete_if_free id p).pool
delete_if_free-IsTidy {r} id p v =
    elim (has_rows id p.allocations)
      as (λ b.
        IsTidy r
          (if b then refused p else record {
            returned = true;
            pool = record p { networks = without_network id p.networks };
          }).pool) [
            | true ↦ v
            | false ↦ record {
              distinct = v.distinct;
              fitting = λ t. AllFit-without id p.networks p.allocations (v.fitting t);
            }
          ]

delete_bridge-IsTidy :
    {r : Bool} (id : String) (connected : Option Bool) (now : ℕ) (p : Pool)
    → IsTidy r p
    → IsTidy r (delete_bridge id connected now p).pool
unfolding release_settled
delete_bridge-IsTidy id none now p v = v
delete_bridge-IsTidy id (some true) now p v = v
delete_bridge-IsTidy id (some false) now p v =
    delete_if_free-IsTidy id (record p { allocations = release_settled id now p.allocations })
      (record {
        distinct = Distinct-keep _ p.allocations v.distinct;
        fitting = λ t. AllFit-keep p.networks _ p.allocations (v.fitting t);
      })

delete_known-IsTidy :
    {r : Bool} (connected : Option Bool) (now : ℕ) (p : Pool) (o : Option Network)
    → IsTidy r p
    → IsTidy r (delete_known connected now p o).pool
delete_known-IsTidy connected now p none v = v
delete_known-IsTidy {r} connected now p (some n) v =
    by_kind (needs_no_vms n) (is_nil (arriving_on n p.arriving))
  where
    by_kind :
        (b c : Bool)
        → IsTidy r
            (if b
              then if c then delete_bridge n.id connected now p else refused p
              else delete_if_free n.id p).pool
    by_kind true true = delete_bridge-IsTidy n.id connected now p v
    by_kind true false = v
    by_kind false c = delete_if_free-IsTidy n.id p v

and_true : (a : Bool) → (a && true) ≡ true → a ≡ true
and_true true e = refl
and_true false e = e

IsTidy-keep :
    (a : Bool) (p : Pool) (test : IpAllocation → Bool)
    → IsTidy a p
    → IsTidy (a && true) (record p { allocations = keep test p.allocations })
IsTidy-keep a p test v = record {
  distinct = Distinct-keep test p.allocations v.distinct;
  fitting = λ t. AllFit-keep p.networks test p.allocations (v.fitting (and_true a t));
}

module _ (show : Ip → String) (name_bridge : ℕ → String) (libvirt_name_for : String → String) where
  -- A step keeps what is tidy; what it says of the networks holds on if they could be read all along.
  Step-IsTidy :
      {a b : Bool} {p q : Pool}
      → Step show name_bridge libvirt_name_for b p q
      → IsTidy a p
      → IsTidy (a && b) q
  unfolding deallocate_vm_ips deallocate_by_mac drop_allocations_of_missing_vms hold_networks
      delete_network
  Step-IsTidy {a} (allocates readable p network_id vm_uuid mac o is_in_use now) v = record {
    distinct =
        allocate_specific_ip-Distinct (seen readable p) network_id vm_uuid mac is_in_use now
          p.allocations o v.distinct;
    fitting = λ t.
        let sighted : readable ≡ true = ground (arith, t, Bool-cases a) in
        let before = v.fitting (ground (arith, t, Bool-cases a)) in
        subst
          (λ b.
            AllFit p.networks
              (allocate_specific_ip (seen b p) network_id vm_uuid mac o is_in_use now
                p.allocations).rows)
          (sym sighted)
          (allocate_specific_ip-AllFit p.networks network_id vm_uuid mac is_in_use now p.allocations
            o before);
  }
  Step-IsTidy {a} (frees_vm p vm_uuid) v = IsTidy-keep a p _ v
  Step-IsTidy {a} (frees_mac p mac) v = IsTidy-keep a p _ v
  Step-IsTidy {a} (drops p is_missing started) v = IsTidy-keep a p _ v
  Step-IsTidy {a} (creates readable p id c gateway defined networks unused made) v =
      let (n, here, e) =
        create_nat_network-snoc show name_bridge libvirt_name_for id c gateway defined
          (seen readable p) networks made in
      record {
        distinct = v.distinct;
        fitting = λ t.
            subst (λ ns. AllFit ns p.allocations) (sym e)
              (AllFit-snoc (seen readable p) n p.allocations
                (ap (λ i. has_rows i p.allocations) here ∙ unused)
                (AllFit-seen readable p (v.fitting (and_true a t))));
      }
  Step-IsTidy {a} (adds readable p n unused) v = record {
    distinct = v.distinct;
    fitting = λ t.
        AllFit-snoc (seen readable p) n p.allocations unused
          (AllFit-seen readable p (v.fitting (and_true a t)));
  }
  Step-IsTidy (forgets p) v = record { distinct = tt; fitting = λ t. tt }
  Step-IsTidy {a} (holds p networks vm) v = record {
    distinct = v.distinct;
    fitting = λ t. v.fitting (and_true a t);
  }
  Step-IsTidy {a} (lets_go p before after h e) v = record {
    distinct = v.distinct;
    fitting = λ t. v.fitting (and_true a t);
  }
  Step-IsTidy {a} (deletes p id connected now) v =
      delete_known-IsTidy connected now p (network_of id p.networks)
        (record { distinct = v.distinct; fitting = λ t. v.fitting (and_true a t) })

  -- In every state that allocations, releases, new networks of any kind, deletions, holds and the loss of the file of
  -- addresses reach in any order, no two rows have one network and one text of an address. If the networks could be
  -- read at each allocation, every row on a network that is known has an address between the first and the last of its
  -- CIDR that is not, by its text, its gateway.
  pub Reached-IsTidy :
      (all_read : Bool) (p : Pool)
      → Reached show name_bridge libvirt_name_for all_read p
      → IsTidy all_read p
  Reached-IsTidy all_read p empty = record { distinct = tt; fitting = λ t. tt }
  Reached-IsTidy all_read p (next r st) = Step-IsTidy st (Reached-IsTidy _ _ r)
