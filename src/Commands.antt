-- ===== src/Commands.antt =====
-- protocol/src/commands: one module for each command and each response.
pub mod OffsetSpecification
pub mod ExchangeCommandVersion
pub mod Open
pub mod PeerProperties
pub mod SaslHandshake
pub mod SaslAuthenticate
pub mod Tune
pub mod Delete
pub mod CreateStream
pub mod Close
pub mod Credit
pub mod Metadata
pub mod DeclarePublisher
pub mod DeletePublisher
pub mod Subscribe
pub mod Unsubscribe
pub mod ExchangeCommandVersions
pub mod CreateSuperStream
pub mod DeleteSuperStream
pub mod SuperStreamPartitions
pub mod SuperStreamRoute
pub mod ConsumerUpdateRequest
pub mod CloseResponse
pub mod Generic
pub mod PublishConfirm
pub mod QueryOffsetResponse
pub mod QueryPublisherResponse
pub mod CreditResponse
pub mod MetadataUpdate
pub mod ExchangeCommandVersionsResponse
pub mod SuperStreamPartitionsResponse
pub mod SuperStreamRouteResponse
pub mod ConsumerUpdate
pub mod PeerPropertiesResponse
pub mod SaslHandshakeResponse
pub mod HeartBeat
pub mod QueryOffset
pub mod QueryPublisherSequence
pub mod StoreOffset
pub mod OpenResponse
pub mod MetadataResponse
pub mod PublishError
pub mod Publish
pub mod Deliver
