-- ===== src/Codec/Decoders/News.antt =====
-- internal/codec/codec_news.go: decoders of classic bodies.
use ibkr_go.Prelude.{List, [], ◌∷◌}
use ibkr_go.Codec.Messages.{
  NewsProviderEntry, Message, news_bulletin, news_article_response, tick_news, news_providers,
  historical_news_item, historical_news_end,
}
use ibkr_go.Codec.Reader.{read_count}
use ibkr_go.Codec.Decoder.{
  Decoder, ◌>>=◌, ◌>>◌, pure, int, string, bool, checked, skipped, require, repeated,
}

unfoldable pub decode_news_bulletins : Decoder (List Message)
decode_news_bulletins = do
  skipped 1
  msg_id ← int
  msg_type ← int
  headline ← string
  source ← string
  pure (
      news_bulletin
        (record { msg_id = msg_id; msg_type = msg_type; headline = headline; source = source })
      ∷ [])

unfoldable pub decode_news_article : Decoder (List Message)
decode_news_article = do
  req_id ← int
  article_type ← int
  article_text ← string
  pure (
      news_article_response
        (record { req_id = req_id; article_type = article_type; article_text = article_text })
      ∷ [])

unfoldable pub decode_tick_news : Decoder (List Message)
decode_tick_news = do
  req_id ← int
  time ← string
  provider_code ← string
  article_id ← string
  headline ← string
  extra_data ← string
  pure (
      tick_news (record {
        req_id = req_id;
        time = time;
        provider_code = provider_code;
        article_id = article_id;
        headline = headline;
        extra_data = extra_data;
      })
      ∷ [])

unfoldable pub read_news_provider_entry : Decoder NewsProviderEntry
read_news_provider_entry = do
  code ← string
  name ← string
  pure (record { code = code; name = name })

unfoldable pub decode_news_providers : Decoder (List Message)
unfolding read_news_provider_entry
decode_news_providers = do
  count ← checked (read_count "news provider count")
  require "news providers" count 2 0
  providers ← repeated count read_news_provider_entry
  pure (news_providers (record { providers = providers }) ∷ [])

unfoldable pub decode_historical_news : Decoder (List Message)
decode_historical_news = do
  req_id ← int
  time ← string
  provider_code ← string
  article_id ← string
  headline ← string
  pure (
      historical_news_item (record {
        req_id = req_id;
        time = time;
        provider_code = provider_code;
        article_id = article_id;
        headline = headline;
      })
      ∷ [])

unfoldable pub decode_historical_news_end : Decoder (List Message)
decode_historical_news_end = do
  req_id ← int
  has_more ← bool
  pure (historical_news_end (record { req_id = req_id; has_more = has_more }) ∷ [])
