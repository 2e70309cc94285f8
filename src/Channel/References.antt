-- ===== src/Channel/References.antt =====
-- UserChannel.hpp counts for every IP address the users that have it, and forgets an address with its
-- last user.
use collab_vm_server.Base.{
  ℕ, ◌+◌, ◌<◌, ◌≡◌, refl, ap, ◌∙◌, inl, inr, Bool, List, Option, none, some, ◌==◌, if◌then◌else◌,
  Bool-cases, Option-cases, arith,
}
use collab_vm_server.Base.Dict.{
  lookup, emplace, modify, remove, Keyed, count, lookup-emplace, emplace-present, lookup-modify,
  lookup-remove, Keyed-emplace, Keyed-modify, Keyed-remove, count-emplace, count-remove,
}
use collab_vm_server.User.{UserData}
use collab_vm_server.Chat.{ChatRoom}
use collab_vm_server.Channel.{
  new_channel, Channel, ChannelIpData, new_ip_data, add_user, begin_remove_user, end_remove_user,
  remove_user, release_ip, reference, dereference, dec_size, new_channel,
}

abbrev pub has_ip : ℕ → UserData → Bool
has_ip ip d = d.ip_address == ip

abbrev pub references_of : Option ChannelIpData → ℕ
references_of none = 0
references_of (some i) = i.reference_count

abbrev pub references : ℕ → List (ℕ × ChannelIpData) → ℕ
references ip m = references_of (lookup ip m)

pub record IsCounted (users : List (ℕ × UserData)) (ips : List (ℕ × ChannelIpData)) : Type 0 where
  pub keyed_users : Keyed users
  pub keyed_ips : Keyed ips
  pub counted : (ip : ℕ) → references ip ips ≡ count (has_ip ip) users
  pub live : (ip : ℕ) (i : ChannelIpData) → lookup ip ips ≡ some i → 0 < i.reference_count

-- What one reference more, with the entry made if it is missing, does to an entry.
pub lookup-referenced :
    (j ip : ℕ) (m : List (ℕ × ChannelIpData))
    → lookup j (modify ip reference (emplace ip new_ip_data m)) ≡ (
        if j == ip
        then some (elim (lookup ip m) [ none ↦ reference new_ip_data | some i ↦ reference i ])
        else lookup j m)
lookup-referenced j ip m = elim (Option-cases (lookup ip m)) [
  | inl e ↦ ground (
    arith,
    lookup-emplace ip ip new_ip_data m e,
    lookup-emplace j ip new_ip_data m e,
    lookup-modify j ip reference new_ip_data (emplace ip new_ip_data m),
  )
  | inr (i, e) ↦
      rw (emplace-present ip new_ip_data i m e) (ground (arith, lookup-modify j ip reference i m e))
]

Keyed-referenced :
    (ip : ℕ) (m : List (ℕ × ChannelIpData))
    → Keyed m
    → Keyed (modify ip reference (emplace ip new_ip_data m))
Keyed-referenced ip m k =
    Keyed-modify ip reference (emplace ip new_ip_data m) (Keyed-emplace ip new_ip_data m k)

pub IsCounted-add :
    (users : List (ℕ × UserData)) (ips : List (ℕ × ChannelIpData)) (d : UserData) (user : ℕ)
    → lookup user users ≡ none
    → IsCounted users ips
    → IsCounted
        (emplace user d users)
        (modify d.ip_address reference (emplace d.ip_address new_ip_data ips))
IsCounted-add users ips d user new h = record {
  keyed_users = Keyed-emplace user d users h.keyed_users;
  keyed_ips = Keyed-referenced d.ip_address ips h.keyed_ips;
  counted = λ ip. ground (
    arith,
    lookup-referenced ip d.ip_address ips,
    count-emplace (has_ip ip) user d users new,
    h.counted ip,
  );
  live = λ ip i e. ground (arith, lookup-referenced ip d.ip_address ips, h.live ip i);
}

-- One reference less.
pub lookup-release_ip :
    (j ip : ℕ) (i : ChannelIpData) (m : List (ℕ × ChannelIpData))
    → Keyed m
    → lookup ip m ≡ some i
    → lookup j (release_ip ip m) ≡ (
        if j == ip
        then (if dec_size i.reference_count == 0 then none else some (dereference i))
        else lookup j m)
unfolding release_ip
lookup-release_ip j ip i m k e =
    ground (arith, e, lookup-remove j ip m k, lookup-modify j ip dereference i m e)

Keyed-release_ip : (ip : ℕ) (m : List (ℕ × ChannelIpData)) → Keyed m → Keyed (release_ip ip m)
unfolding release_ip
Keyed-release_ip ip m k = elim (Option-cases (lookup ip m)) [
  | inl e ↦ rw (e, release_ip) k
  | inr (i, e) ↦ elim (Bool-cases (dec_size i.reference_count == 0)) [
    | inl last ↦ rw (e, release_ip) (rw last (Keyed-remove ip m k))
    | inr more ↦ rw (e, release_ip) (rw more (Keyed-modify ip dereference m k))
  ]
]

-- The address of a present user has an entry.
pub entry_of_user :
    (users : List (ℕ × UserData)) (ips : List (ℕ × ChannelIpData)) (d : UserData) (user : ℕ)
    → lookup user users ≡ some d
    → IsCounted users ips
    → (i : ChannelIpData) × (lookup d.ip_address ips ≡ some i)
entry_of_user users ips d user e h = elim (Option-cases (lookup d.ip_address ips)) [
  | inr found ↦ found
  | inl missing ↦
      absurd
        (ground (arith, h.counted d.ip_address, count-remove (has_ip d.ip_address) user d users e))
]

pub IsCounted-remove :
    (users : List (ℕ × UserData)) (ips : List (ℕ × ChannelIpData)) (d : UserData) (user : ℕ)
    → lookup user users ≡ some d
    → IsCounted users ips
    → IsCounted (remove user users) (release_ip d.ip_address ips)
IsCounted-remove users ips d user e h =
    let (i, f) = entry_of_user users ips d user e h in
    record {
      keyed_users = Keyed-remove user users h.keyed_users;
      keyed_ips = Keyed-release_ip d.ip_address ips h.keyed_ips;
      counted = λ ip. ground (
        arith,
        lookup-release_ip ip d.ip_address i ips h.keyed_ips f,
        count-remove (has_ip ip) user d users e,
        h.counted ip,
        h.live d.ip_address i f,
      );
      live = λ ip i' e'. ground (
        arith,
        lookup-release_ip ip d.ip_address i ips h.keyed_ips f,
        h.live ip i',
        h.live d.ip_address i f,
      );
    }

abbrev pub Counted : Channel → Type 0
Counted c = IsCounted c.users c.ip_data

pub new_channel-Counted : (room : ChatRoom) → Counted (new_channel room)
unfolding new_channel
new_channel-Counted room = record {
  keyed_users = tt;
  keyed_ips = tt;
  counted = λ ip. refl;
  live = λ ip i f. absurd (ground arith);
}

-- In a channel where every address has as many references as it has users, `AddUser` of a user who was not
-- there keeps it so, and the user is in the channel with the given data.
pub add_user-Counted :
    (c : Channel) (d : UserData) (user : ℕ)
    → lookup user c.users ≡ none
    → Counted c
    → Counted (add_user c d user).0 × (lookup user (add_user c d user).0.users ≡ some d)
unfolding add_user
add_user-Counted c d user new h = (
  IsCounted-add c.users c.ip_data d user new h,
  ground (arith, lookup-emplace user user d c.users new),
)

-- In a channel where every address has as many references as it has users, `RemoveUser` keeps it so, and the
-- user is not in the channel afterwards.
pub remove_user-Counted :
    (c : Channel) (user : ℕ)
    → Counted c
    → Counted (remove_user c user).0 × (lookup user (remove_user c user).0.users ≡ none)
unfolding remove_user begin_remove_user end_remove_user
remove_user-Counted c user h = elim (Option-cases (lookup user c.users)) [
  | inl e ↦ rw (e, remove_user) (h, e)
  | inr (d, e) ↦
      rw (e, remove_user)
        (
          IsCounted-remove c.users c.ip_data d user e h,
          ground (arith, lookup-remove user user c.users h.keyed_users),
        )
]

remove_user_present :
    (c : Channel) (d : UserData) (user : ℕ)
    → lookup user c.users ≡ some d
    → ((remove_user c user).0.users ≡ remove user c.users)
      × ((remove_user c user).0.ip_data ≡ release_ip d.ip_address c.ip_data)
unfolding remove_user begin_remove_user end_remove_user
remove_user_present c d user e = rw (e, remove_user) (refl, refl)

-- A user who joins again, as on a second request to connect to the same VM, and leaves once is out of the
-- channel, and the address keeps one reference too many.
pub add_again_leaks :
    (c : Channel) (d d' : UserData) (user : ℕ)
    → Counted c
    → lookup user c.users ≡ some d
    → d'.ip_address ≡ d.ip_address
    → let c' = (remove_user (add_user c d' user).0 user).0 in
      (lookup user c'.users ≡ none)
      × (references d.ip_address c'.ip_data ≡ count (has_ip d.ip_address) c'.users + 1)
unfolding add_user
add_again_leaks c d d' user h e same =
    let (i, f) = entry_of_user c.users c.ip_data d user e h in
    let ip = d.ip_address in
    let users : emplace user d' c.users ≡ c.users = emplace-present user d' d c.users e in
    let ips = modify ip reference (emplace ip new_ip_data c.ip_data) in
    let (left, freed) =
      remove_user_present (add_user c d' user).0 d user (ap (lookup user) users ∙ e) in
    let left' = left ∙ ap (remove user) users in
    let freed' =
      freed ∙ ap (λ a. release_ip ip (modify a reference (emplace a new_ip_data c.ip_data))) same in
    let entry : lookup ip ips ≡ some (reference i) =
      ground (arith, lookup-referenced ip ip c.ip_data, f) in
    (
      ap (lookup user) left' ∙ ground (arith, lookup-remove user user c.users h.keyed_users),
      ap (references ip) freed'
          ∙ ground (
            arith,
            lookup-release_ip ip ip (reference i) ips (Keyed-referenced ip c.ip_data h.keyed_ips)
                entry,
            ap (count (has_ip ip)) left',
            count-remove (has_ip ip) user d c.users e,
            h.counted ip,
            h.live ip i f,
            f,
          ),
    )
