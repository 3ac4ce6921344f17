-- ===== src/Tests/Stores.antt =====
-- Concrete runs: the operations of the store, and the decimal numbers.
use redix.Prelude.{
  ◌↔◌, ◌&&◌, ◌≡◌, refl, if◌then◌else◌, true, false, none, [], ◌∷◌, ◌++◌, arith, codes, text_less,
}
use mathlib.Core.List.{reverse}
use redix.Prelude.Int.{pos, negsuc}
use redix.FlatMap.{IsSorted, text_order}
use redix.Store.Value.{later, hash_value, set_value, fresh, DataMap}
use redix.Store.Live.{find_live}
use redix.Store.View.{IsUntouched}
use redix.Store.Invariant.{IsValid}
use redix.Store.Strings.Counter
use redix.Store.Strings.Counter.{IsSum, IsDifference, counter, incrby_lem, decrby_lem}
use redix.Store.Strings.Deleted.{is_listed, del_lem}
use redix.Store.Expiry.Deadline.{is_some, until, pexpire_lem}
use redix.Store.Lists.Ranges.{ranged, lrange_lem}
use redix.Store.Lists.Sequence.{sequence, pushed, lpush_lem, rpush_lem}
use redix.Store.Lists.Pops.{popped, mirrored, lpop_lem, rpop_lem}
use redix.Store.Hashes.{hset, hdel}
use redix.Store.Sets.{sadd, srem, sunion, sinter}
use redix.Store.Hashes.Fields.{fields, IsAssigned, hset_lem}
use redix.Store.Hashes.Erased.{IsErased, hdel_lem}
use redix.Store.Sets.Added.{members, IsAdded, sadd_lem}
use redix.Store.Sets.Union.{has_member, any_has_member, sunion_lem}
use redix.Store.Sets.Intersection.{all_contain, sinter_lem}
use redix.Store.Sets.Removed.{IsRemoved, srem_lem}
use redix.Store.Glob.{glob_match}
use redix.Store.Glob.Sound.{Matches}
use redix.Store.Glob.Complete.{NoStar, glob_match_iff}
use redix.Store.Glob.Total.{glob_match-star}
use redix.Store.Keyspace.Clients
use redix.Store.Keyspace.{rename, sweep_expired}
use redix.Store.Strings.{incrby, decrby, del}
use redix.Store.Expiry.{pexpire}
use redix.Store.Lists.{lpush, rpush, lpop, rpop, lrange}
use redix.Store.Keyspace.Clients.{moved, rename_lem, sweep_expired_lem}
use redix.Command.Strings.{set_options, handle_set}
use redix.Command.Strings.Options.{IsAssignment, no_options, handle_set_lem}
use redix.Tests.{keyspace, noon, keyspace-IsSorted}

incrby_lem_example :
    IsSum
      (counter (find_live 12 (codes "n") keyspace))
      (pos 1)
      (incrby 12 (codes "n") (pos 1) keyspace).0
    × Counter.Outcome 12
        (codes "n")
        keyspace
        (incrby 12 (codes "n") (pos 1) keyspace).0
        (incrby 12 (codes "n") (pos 1) keyspace).1
incrby_lem_example = incrby_lem 12 (codes "n") (pos 1) keyspace (omega arith) keyspace-IsSorted

decrby_lem_example :
    IsDifference
      (counter (find_live 12 (codes "n") keyspace))
      (pos 1)
      (decrby 12 (codes "n") (pos 1) keyspace).0
    × Counter.Outcome 12
        (codes "n")
        keyspace
        (decrby 12 (codes "n") (pos 1) keyspace).0
        (decrby 12 (codes "n") (pos 1) keyspace).1
decrby_lem_example = decrby_lem 12 (codes "n") (pos 1) keyspace keyspace-IsSorted

pexpire_lem_example :
    ((pexpire noon (codes "l") 100 keyspace).0 ≡ is_some (find_live 12 (codes "l") keyspace))
    × (find_live 20 (codes "l") (pexpire noon (codes "l") 100 keyspace).1
        ≡ until 112 20 (find_live 12 (codes "l") keyspace))
pexpire_lem_example =
    pexpire_lem noon (codes "l") 100 keyspace 20 keyspace-IsSorted (omega arith) (omega arith)
      (omega arith)

lpush_lem_example :
    ((
      (lpush 12 (codes "l") (codes "z" ∷ []) keyspace).0,
      sequence 12 (codes "l") (lpush 12 (codes "l") (codes "z" ∷ []) keyspace).1,
    )
      ≡ pushed (λ l. reverse (codes "z" ∷ []) ++ l) (sequence 12 (codes "l") keyspace))
    × IsUntouched
        (sequence 12 (codes "l") keyspace)
        12
        keyspace
        (lpush 12 (codes "l") (codes "z" ∷ []) keyspace).1
lpush_lem_example = lpush_lem 12 (codes "l") (codes "z" ∷ []) keyspace keyspace-IsSorted

rpush_lem_example :
    ((
      (rpush 12 (codes "l") (codes "z" ∷ []) keyspace).0,
      sequence 12 (codes "l") (rpush 12 (codes "l") (codes "z" ∷ []) keyspace).1,
    )
      ≡ pushed (λ l. l ++ codes "z" ∷ []) (sequence 12 (codes "l") keyspace))
    × IsUntouched
        (sequence 12 (codes "l") keyspace)
        12
        keyspace
        (rpush 12 (codes "l") (codes "z" ∷ []) keyspace).1
rpush_lem_example = rpush_lem 12 (codes "l") (codes "z" ∷ []) keyspace keyspace-IsSorted

lpop_lem_example :
    ((lpop 12 (codes "l") keyspace).0, sequence 12 (codes "l") (lpop 12 (codes "l") keyspace).1)
    ≡ popped (λ x l. (x, l)) (sequence 12 (codes "l") keyspace)
lpop_lem_example = lpop_lem 12 (codes "l") keyspace keyspace-IsSorted

rpop_lem_example :
    (
      (rpop 12 (codes "l") keyspace).0,
      mirrored (sequence 12 (codes "l") (rpop 12 (codes "l") keyspace).1),
    )
    ≡ popped (λ x l. (x, l)) (mirrored (sequence 12 (codes "l") keyspace))
rpop_lem_example = rpop_lem 12 (codes "l") keyspace keyspace-IsSorted

lrange_lem_example :
    lrange 12 (codes "l") (negsuc 1) (negsuc 0) keyspace
    ≡ ranged (negsuc 1) (negsuc 0) (find_live 12 (codes "l") keyspace)
lrange_lem_example = lrange_lem 12 (codes "l") (negsuc 1) (negsuc 0) keyspace

rename_lem_example :
    ((rename 12 (codes "l") (codes "m") keyspace).0
      ≡ Clients.is_some (find_live 12 (codes "l") keyspace))
    × (find_live 20 (codes "m") (rename 12 (codes "l") (codes "m") keyspace).1
        ≡ moved 20
            (codes "l")
            (codes "m")
            (codes "m")
            (find_live 12 (codes "l") keyspace)
            (find_live 20 (codes "m") keyspace))
rename_lem_example =
    rename_lem 12 20 (codes "l") (codes "m") (codes "m") keyspace keyspace-IsSorted (omega arith)

del_lem_example :
    find_live 20 (codes "n") (del noon (codes "n" ∷ []) keyspace).1
    ≡ (if is_listed (codes "n") (codes "n" ∷ []) then none else find_live 20 (codes "n") keyspace)
del_lem_example =
    del_lem noon (codes "n" ∷ []) 20 (codes "n") keyspace keyspace-IsSorted (λ i. omega arith)

sweep_expired_lem_example :
    find_live 60 (codes "n") (sweep_expired (λ i. 55) keyspace) ≡ find_live 60 (codes "n") keyspace
sweep_expired_lem_example =
    sweep_expired_lem (λ i. 55) 60 (codes "n") keyspace keyspace-IsSorted (λ i. omega arith)

hello-NoStar : NoStar (codes "hello")
hello-NoStar = (refl, (refl, (refl, (refl, (refl, tt)))))

glob_match_iff_example :
    (glob_match (codes "h?l*") (codes "hello") ≡ true) ↔ Matches (codes "h?l*") (codes "hello")
glob_match_iff_example = glob_match_iff (codes "h?l*") (codes "hello") hello-NoStar

glob_match-star_example : glob_match (codes "*") (codes "*ab") ≡ false
glob_match-star_example = glob_match-star b'a' (codes "b")

-- A key with a hash, and a key with a set.
abbrev collections : DataMap
collections =
    (codes "h", fresh (hash_value ((codes "f", codes "1") ∷ [])))
    ∷ (codes "s", fresh (set_value ((codes "a", tt) ∷ [])))
    ∷ []

collections-IsSorted : IsSorted collections
unfolding text_less
collections-IsSorted = ((refl, tt), (tt, tt))

collections-IsValid : IsValid collections
collections-IsValid = (collections-IsSorted, ((tt, (tt, tt)), ((tt, (tt, tt)), tt)))

hset_lem_example :
    IsAssigned ((codes "g", codes "2") ∷ []) (fields 12 (codes "h") collections) (
      (hset 12 (codes "h") ((codes "g", codes "2") ∷ []) collections).0,
      fields 12 (codes "h") (hset 12 (codes "h") ((codes "g", codes "2") ∷ []) collections).1,
    )
    × IsUntouched
        (fields 12 (codes "h") collections)
        12
        collections
        (hset 12 (codes "h") ((codes "g", codes "2") ∷ []) collections).1
hset_lem_example =
    hset_lem 12 (codes "h") ((codes "g", codes "2") ∷ []) collections collections-IsSorted

hdel_lem_example :
    IsErased (codes "f" ∷ []) (fields 12 (codes "h") collections) (
      (hdel 12 (codes "h") (codes "f" ∷ []) collections).0,
      fields 12 (codes "h") (hdel 12 (codes "h") (codes "f" ∷ []) collections).1,
    )
    × IsUntouched
        (fields 12 (codes "h") collections)
        12
        collections
        (hdel 12 (codes "h") (codes "f" ∷ []) collections).1
hdel_lem_example = hdel_lem 12 (codes "h") (codes "f" ∷ []) collections collections-IsValid

sadd_lem_example :
    IsAdded (codes "b" ∷ []) (members 12 (codes "s") collections) (
      (sadd 12 (codes "s") (codes "b" ∷ []) collections).0,
      members 12 (codes "s") (sadd 12 (codes "s") (codes "b" ∷ []) collections).1,
    )
    × IsUntouched
        (members 12 (codes "s") collections)
        12
        collections
        (sadd 12 (codes "s") (codes "b" ∷ []) collections).1
sadd_lem_example = sadd_lem 12 (codes "s") (codes "b" ∷ []) collections collections-IsSorted

srem_lem_example :
    IsRemoved (codes "a" ∷ []) (members 12 (codes "s") collections) (
      (srem 12 (codes "s") (codes "a" ∷ []) collections).0,
      members 12 (codes "s") (srem 12 (codes "s") (codes "a" ∷ []) collections).1,
    )
    × IsUntouched
        (members 12 (codes "s") collections)
        12
        collections
        (srem 12 (codes "s") (codes "a" ∷ []) collections).1
srem_lem_example = srem_lem 12 (codes "s") (codes "a" ∷ []) collections collections-IsValid

sunion_lem_example :
    is_listed (codes "a") (sunion noon (codes "h" ∷ codes "s" ∷ []) collections)
    ≡ any_has_member noon (codes "h" ∷ codes "s" ∷ []) collections (codes "a")
sunion_lem_example = sunion_lem noon (codes "h" ∷ codes "s" ∷ []) collections (codes "a")

sinter_lem_example :
    is_listed (codes "a") (sinter noon (codes "s" ∷ codes "s" ∷ []) collections) ≡ (
      has_member (codes "a") (find_live 12 (codes "s") collections)
      && all_contain (later noon) (codes "s" ∷ []) collections (codes "a"))
sinter_lem_example = sinter_lem noon (codes "s") (codes "s" ∷ []) collections (codes "a")

handle_set_lem_example :
    IsAssignment
      (codes "n")
      (codes "v")
      keyspace
      (set_options noon (codes "NX" ∷ []) no_options)
      (handle_set noon (codes "n" ∷ codes "v" ∷ codes "NX" ∷ []) keyspace)
handle_set_lem_example = handle_set_lem noon (codes "n") (codes "v") (codes "NX" ∷ []) keyspace
