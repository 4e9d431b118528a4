-- ===== src/Query.antt =====
-- gen/ts/galactica/merkle/query.ts: the messages of the Query service, and its client.
pub mod Proof
pub mod BatchOperation
pub mod BatchProof
pub mod QueryProofRequest
pub mod QueryProofResponse
pub mod GetEmptyLeafProofRequest
pub mod GetEmptyLeafProofResponse
pub mod QueryBatchProofsRequest
pub mod QueryBatchProofsResponse
pub mod Client
pub mod Ends
pub mod Errors
