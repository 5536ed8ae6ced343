-- ===== src/Adc/Valid.antt =====
-- Which configurations are accepted.
use dtmc_zephyr.Prelude.{
  ℕ, ℤ, pos, negsuc, pos_part, is_negative, ◌≤◌, ◌<◌, ◌≡◌, ◌≢◌, ◌↔◌, refl, true, false, ◌||◌, none,
  List, [], ◌∷◌, arith, leb, take, inl, inr, Bool-cases,
}
use dtmc_zephyr.Adc.Object.{ChannelConfig, Config}
use dtmc_zephyr.Adc.Config.{eq_int, has_duplicate, validate_channels, validate_config}

-- A channel of the hardware, with a resolution.
pub record IsChannel (c : ChannelConfig) : Type 0 where
  pub number : ℕ
  pub channel_id : c.channel_id ≡ pos number
  pub in_range : number < 8
  pub resolution : 0 < c.resolution

-- No later channel has the id.
abbrev pub IsFresh : ℤ → List ChannelConfig → Type 0
IsFresh id [] = Unit {0}
IsFresh id (c ∷ rest) = (id ≢ c.channel_id) × IsFresh id rest

-- Channels of the hardware, no two of them the same.
abbrev pub AreChannels : List ChannelConfig → Type 0
AreChannels [] = Unit {0}
AreChannels (c ∷ rest) = IsChannel c × IsFresh c.channel_id rest × AreChannels rest

-- What a configuration has to be.
pub record IsUsable (cfg : Config) : Type 0 where
  pub counter : cfg.counter_dev ≡ true
  pub interval : 0 < pos_part cfg.scan_interval_ms
  pub some_channels : 0 < pos_part cfg.channel_count
  pub few_channels : pos_part cfg.channel_count ≤ 8
  pub channels : AreChannels (take (pos_part cfg.channel_count) cfg.channels)

eq_int-true : (a b : ℤ) → eq_int a b ≡ true → a ≡ b
eq_int-true (pos a) (pos b) h = ground arith
eq_int-true (negsuc a) (negsuc b) h = ground arith
eq_int-true (pos a) (negsuc b) h = cc
eq_int-true (negsuc a) (pos b) h = cc

eq_int-false : (a b : ℤ) → eq_int a b ≡ false → a ≢ b
eq_int-false (pos a) (pos b) h q = ground arith
eq_int-false (negsuc a) (negsuc b) h q = ground arith
eq_int-false (pos a) (negsuc b) h q = cc
eq_int-false (negsuc a) (pos b) h q = cc

IsFresh-intro : (id : ℤ) (l : List ChannelConfig) → has_duplicate id l ≡ false → IsFresh id l
unfolding has_duplicate
IsFresh-intro id [] h = tt
IsFresh-intro id (c ∷ rest) h = elim (Bool-cases (eq_int id c.channel_id)) [
  | inl q ↦ ground (arith, q)
  | inr q ↦ (eq_int-false id c.channel_id q, IsFresh-intro id rest (ground (arith, q)))
]

of_fresh : (id : ℤ) (l : List ChannelConfig) → IsFresh id l → has_duplicate id l ≡ false
unfolding has_duplicate
of_fresh id [] h = refl
of_fresh id (c ∷ rest) h = elim (Bool-cases (eq_int id c.channel_id)) [
  | inl q ↦ absurd (h.0 (eq_int-true id c.channel_id q))
  | inr q ↦ rw q (of_fresh id rest h.1)
]

id_of : (i : ℤ) → (is_negative i || leb 8 (pos_part i)) ≡ false → (n : ℕ) × (i ≡ pos n) × (n < 8)
id_of (pos n) h = (n, refl, ground arith)
id_of (negsuc n) h = cc

IsChannel-intro :
    (c : ChannelConfig)
    → (is_negative c.channel_id || leb 8 (pos_part c.channel_id)) ≡ false
    → leb c.resolution 0 ≡ false
    → IsChannel c
IsChannel-intro c h r =
    let id = id_of c.channel_id h in
    record { number = id.0; channel_id = id.1; in_range = id.2; resolution = ground arith }

channels_of : (l : List ChannelConfig) → validate_channels l ≡ none → AreChannels l
unfolding validate_channels
channels_of [] h = tt
channels_of (c ∷ rest) h =
    elim (Bool-cases (is_negative c.channel_id || leb 8 (pos_part c.channel_id))) [
      | inl q ↦ absurd (ground (arith, q))
      | inr q ↦ elim (Bool-cases (leb c.resolution 0)) [
        | inl r ↦ absurd (ground (arith, q, r))
        | inr r ↦ elim (Bool-cases (has_duplicate c.channel_id rest)) [
          | inl d ↦ absurd (ground (arith, q, r, d))
          | inr d ↦ (
            IsChannel-intro c q r,
            IsFresh-intro c.channel_id rest d,
            channels_of rest (ground (arith, q, r, d)),
          )
        ]
      ]
    ]

of_channels : (l : List ChannelConfig) → AreChannels l → validate_channels l ≡ none
unfolding validate_channels
of_channels [] h = refl
of_channels (c ∷ rest) h =
    let fresh = of_fresh c.channel_id rest h.1 in
    let later = of_channels rest h.2 in
    let id = h.0.channel_id in
    let small = h.0.in_range in
    let resolution = h.0.resolution in ground (arith, id, fresh, later, small, resolution)

-- A configuration is accepted exactly if the counter is given, the interval is positive, and there
-- are one to eight channels, each with an id from 0 to 7 and a resolution, and no two with the same
-- id.
pub validate_config_iff : (cfg : Config) → (validate_config cfg ≡ none) ↔ IsUsable cfg
unfolding validate_config
validate_config_iff cfg =
    let n = pos_part cfg.channel_count in
    let channels = take n cfg.channels in
    (
      λ h. record {
        counter = ground arith;
        interval = ground arith;
        some_channels = ground arith;
        few_channels = ground arith;
        channels = channels_of channels (ground arith);
      },
      λ u.
          let valid = of_channels channels u.channels in
          ground (arith, valid, u.counter, u.interval, u.some_channels, u.few_channels),
    )
