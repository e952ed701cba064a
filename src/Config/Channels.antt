-- ===== src/Config/Channels.antt =====
-- `parse_channels` of src/config.c, one function for each channel.
use tiniclaw.Base.{Bool, true, false, [], ◌∷◌, Bytes, codes}
use tiniclaw.Json.{Tree, get_item}
use tiniclaw.Config.{ChannelsConfig}
use tiniclaw.Config.Read.{safe_str, safe_bool, safe_uint16, section}
use tiniclaw.Config.Defaults.{number_or}

-- `s[0] != '\0'`
unfoldable pub is_set : Bytes → Bool
is_set [] = false
is_set (c ∷ s) = true

unfoldable pub read_telegram : Tree → ChannelsConfig → ChannelsConfig
unfolding safe_str is_set
read_telegram tg c =
    let token = safe_str 256 tg (codes "bot_token") c.telegram_bot_token in
    record c { telegram_bot_token = token; telegram_enabled = is_set token }

unfoldable pub read_discord : Tree → ChannelsConfig → ChannelsConfig
unfolding safe_str is_set
read_discord dc c =
    let token = safe_str 256 dc (codes "bot_token") c.discord_bot_token in
    record c {
      discord_bot_token = token;
      discord_guild_id = safe_str 64 dc (codes "guild_id") c.discord_guild_id;
      discord_enabled = is_set token;
    }

unfoldable pub read_slack : Tree → ChannelsConfig → ChannelsConfig
unfolding safe_str is_set
read_slack sl c =
    let token = safe_str 256 sl (codes "bot_token") c.slack_bot_token in
    record c {
      slack_bot_token = token;
      slack_channel_id = safe_str 64 sl (codes "channel_id") c.slack_channel_id;
      slack_enabled = is_set token;
    }

unfoldable pub read_matrix : Tree → ChannelsConfig → ChannelsConfig
unfolding safe_str is_set
read_matrix mat c =
    let homeserver = safe_str 256 mat (codes "homeserver") c.matrix_homeserver in
    record c {
      matrix_homeserver = homeserver;
      matrix_access_token = safe_str 512 mat (codes "access_token") c.matrix_access_token;
      matrix_user_id = safe_str 128 mat (codes "user_id") c.matrix_user_id;
      matrix_enabled = is_set homeserver;
    }

unfoldable pub read_irc : Tree → ChannelsConfig → ChannelsConfig
unfolding safe_str safe_bool safe_uint16 number_or is_set
read_irc obj c =
    let host = safe_str 256 obj (codes "host") c.irc.host in
    record c {
      irc = record {
        host = host;
        port = number_or 6697 (safe_uint16 obj (codes "port") c.irc.port);
        nick = safe_str 64 obj (codes "nick") c.irc.nick;
        password = safe_str 256 obj (codes "password") c.irc.password;
        tls = safe_bool obj (codes "tls") c.irc.tls;
      };
      irc_enabled = is_set host;
    }

-- The flag is looked for beside the section, not in it.
unfoldable pub read_imessage : Tree → Tree → ChannelsConfig → ChannelsConfig
unfolding safe_bool
read_imessage ch imsg c = record c {
  imessage_enabled = safe_bool ch (codes "imessage_enabled") c.imessage_enabled;
}

unfoldable pub read_channels : Tree → ChannelsConfig → ChannelsConfig
unfolding get_item section read_telegram read_discord read_slack read_matrix read_irc read_imessage
read_channels ch c = section (get_item ch (codes "imessage")) (read_imessage ch) (
    section (get_item ch (codes "irc")) read_irc (
      section (get_item ch (codes "matrix")) read_matrix (
        section (get_item ch (codes "slack")) read_slack (
          section (get_item ch (codes "discord")) read_discord
            (section (get_item ch (codes "telegram")) read_telegram c)))))

unfoldable pub parse_channels : Tree → ChannelsConfig → ChannelsConfig
unfolding get_item section read_channels
parse_channels root c = section (get_item root (codes "channels")) read_channels c
